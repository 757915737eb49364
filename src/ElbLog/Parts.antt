-- ===== src/ElbLog/Parts.antt =====
-- Field helpers of internal/elblog/elblog.go: numbers, times, addresses and the request line.
use ctaudit.Prelude.{
  ℕ, suc, ◌+◌, ◌||◌, Option, none, some, [], ◌∷◌, Word, if◌then◌else◌, ltb, eqb, take, drop,
}
use ctaudit.Text.{
  Str, codes, str_eq, has_prefix, index, index_byte, last_index_byte, trim_prefix, trim_suffix,
  trim_space, to_lower,
}
use ctaudit.Text.Decimal.{int_value}
use ctaudit.Instant.{Time}
use ctaudit.ElbLog.{Runtime}

-- dash(s)
unfoldable pub dash : Str → Str
unfolding codes str_eq
dash s = if str_eq s (codes "-") then [] else s

-- bytesField(s), which keeps the value that comes with an error.
unfoldable pub bytes_field : Str → Word
bytes_field = int_value

-- seconds(s), millis(s), sumLatency(a, b, c) and parseTime(s)
module _ (rt : Runtime) where
  unfoldable pub seconds : Str → rt.Float
  seconds s = elim (rt.parse_float s) [ none ↦ rt.minus_1 | some f ↦ f ]

  unfoldable pub millis : Str → rt.Float
  millis s = elim (rt.parse_float s) [
    | none ↦ rt.minus_1
    | some f ↦ if rt.is_negative f then rt.minus_1 else rt.thousandth f
  ]

  unfoldable pub sum_latency : rt.Float → rt.Float → rt.Float → rt.Float
  sum_latency a b c =
      if rt.is_negative a || (rt.is_negative b || rt.is_negative c)
      then rt.minus_1
      else rt.plus (rt.plus a b) c

  unfoldable pub parse_time : Str → Option Time
  parse_time s = elim (rt.rfc3339_nano s) [ none ↦ rt.zoneless_nano s | some t ↦ some t ]

-- splitHostPort(s)
unfoldable pub split_host_port : Str → Str × Str
unfolding codes str_eq
split_host_port s =
    if str_eq s (codes "-") || str_eq s [] then ([], []) else elim (last_index_byte s b':') [
      | none ↦ (s, [])
      | some i ↦ (trim_suffix (trim_prefix (take i s) (codes "[")) (codes "]"), drop (suc i) s)
    ]

-- strings.IndexAny(p, "?#")
unfoldable pub index_query : Str → Option ℕ
index_query [] = none
index_query (c ∷ s) =
    let rest = index_query s in
    if eqb c b'?' || eqb c b'#' then some 0 else elim rest [ none ↦ none | some i ↦ some (suc i) ]

-- trimQuery(p)
unfoldable pub trim_query : Str → Str
trim_query p = elim (index_query p) [ none ↦ p | some i ↦ take i p ]

-- The host of splitURL, of "host:port" or "[v6]:port".
unfoldable pub host_of : Str → Str
unfolding codes
host_of hostport =
    if has_prefix hostport (codes "[")
    then elim (index_byte hostport b']') [ none ↦ hostport | some i ↦ drop 1 (take i hostport) ]
    else elim (last_index_byte hostport b':') [ none ↦ hostport | some i ↦ take i hostport ]

-- What follows the scheme: the host up to the first slash, the path from it on.
unfoldable pub split_rest : Str → Str × Str
split_rest rest = elim (index_byte rest b'/') [
  | none ↦ (to_lower (host_of rest), [])
  | some i ↦ (to_lower (host_of (take i rest)), trim_query (drop i rest))
]

-- splitURL(u)
unfoldable pub split_url : Str → Str × Str
unfolding codes
split_url u = elim (index u (codes "://")) [
  | none ↦ if has_prefix u (codes "/") then ([], trim_query u) else split_rest u
  | some i ↦ split_rest (drop (i + 3) u)
]

-- schemeOf(u)
unfoldable pub scheme_of : Str → Str
unfolding codes
scheme_of u = elim (index u (codes "://")) [
  | none ↦ []
  | some i ↦ if ltb 0 i then to_lower (take i u) else []
]

-- strings.SplitN(req, " ", 3): the parts that are there.
unfoldable pub split_3 : Str → Str × Option Str × Option Str
split_3 req = elim (index_byte req b' ') [
  | none ↦ (req, none, none)
  | some i ↦ elim (index_byte (drop (suc i) req) b' ') [
    | none ↦ (take i req, some (drop (suc i) req), none)
    | some j ↦
        (take i req, some (take j (drop (suc i) req)), some (drop (suc j) (drop (suc i) req)))
  ]
]

-- What setRequest fills in.
pub record Request : Type 0 where
  pub method : Str
  pub url : Str
  pub protocol : Str
  pub host : Str
  pub path : Str

-- e.setRequest(req)
unfoldable pub set_request : Str → Request
unfolding split_3
set_request req =
    let (m, u, p) = split_3 req in
    let url : Str = elim u [ none ↦ [] | some s ↦ dash s ] in
    let (h, q) = split_url url in
    record {
      method = dash m;
      url = url;
      protocol = elim p [ none ↦ [] | some s ↦ dash (trim_space s) ];
      host = h;
      path = q;
    }
