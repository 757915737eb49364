-- ===== src/ElbLog/Keys.antt =====
-- Log object keys of internal/elblog/elblog.go, and Decode.
use ctaudit.Prelude.{
  ℕ, suc, ◌+◌, Bool, false, not, ◌&&◌, ◌||◌, Option, none, some, List, [], ◌∷◌, if◌then◌else◌, eqb,
  take, drop, any_of, is_empty, is_some,
}
use ctaudit.Text.{
  Str, codes, str_eq, has_prefix, has_suffix, index, index_byte, last_index_byte, to_lower,
  trim_right_by, trim_space,
}
use ctaudit.ElbLog.{Runtime, Kind, alb, nlb, classic, Entry}
use ctaudit.ElbLog.Parse.{parse_alb, parse_alb_conn, parse_nlb, parse_classic}

-- path.Base(key)
unfoldable pub base : Str → Str
unfolding codes trim_right_by
base [] = codes "."
base (c ∷ s) =
    let p = trim_right_by (λ b. eqb b b'/') (c ∷ s) in
    if is_empty p
    then codes "/"
    else elim (last_index_byte p b'/') [ none ↦ p | some i ↦ drop (suc i) p ]

-- keyLBSegment(key): behind keyMarker, the region is skipped.
unfoldable pub segment : Str → Str
segment rest = elim (index_byte rest b'_') [
  | none ↦ []
  | some j ↦ elim (index_byte (drop (suc j) rest) b'_') [
    | none ↦ []
    | some k ↦ take k (drop (suc j) rest)
  ]
]

unfoldable pub key_lb_segment : Str → Str
unfolding codes
key_lb_segment key = elim (index (base key) (codes "_elasticloadbalancing_")) [
  | none ↦ []
  | some i ↦ segment (drop (i + 22) (base key))
]

-- ParseKind(s)
unfoldable pub parse_kind : Str → Option Kind
unfolding codes str_eq
parse_kind s =
    let n = to_lower (trim_space s) in
    let among = λ (l : List Str). any_of (str_eq n) l in
    if among (codes "alb" ∷ codes "app" ∷ codes "application" ∷ [])
    then some alb
    else if among (codes "nlb" ∷ codes "net" ∷ codes "network" ∷ [])
    then some nlb
    else if among (codes "classic" ∷ codes "elb" ∷ codes "clb" ∷ [])
    then some classic
    else none

-- KindFromKey(key)
unfoldable pub kind_of_segment : Str → Option Kind
unfolding codes
kind_of_segment seg =
    if is_empty seg
    then none
    else if has_prefix seg (codes "app.")
    then some alb
    else if has_prefix seg (codes "net.")
    then some nlb
    else some classic

unfoldable pub kind_from_key : Str → Option Kind
kind_from_key key = kind_of_segment (key_lb_segment key)

-- What stands between the first dot and the next one, or the end.
unfoldable pub second_part : Str → Str
second_part seg = elim (index_byte seg b'.') [
  | none ↦ seg
  | some i ↦ elim (index_byte (drop (suc i) seg) b'.') [
    | none ↦ drop (suc i) seg
    | some j ↦ take j (drop (suc i) seg)
  ]
]

-- LBNameFromKey(key)
unfoldable pub lb_name_from_key : Str → Str
unfolding codes
lb_name_from_key key =
    let seg = key_lb_segment key in
    if has_prefix seg (codes "app.") || has_prefix seg (codes "net.") then second_part seg else seg

-- IsConnLogKey(key) and IsLogKey(key)
unfoldable pub is_conn_log_key : Str → Bool
unfolding codes
is_conn_log_key key = has_prefix (base key) (codes "conn_log_")

unfoldable pub is_log_key : Str → Bool
unfolding codes
is_log_key key =
    if not (has_suffix key (codes ".log.gz")) && not (has_suffix key (codes ".log"))
    then false
    else is_some (kind_from_key key)

-- What Decode returns for an object that could be read: the entries, and the number of lines
-- that could not be parsed.
pub record Decoded (Float : Type 0) : Type 0 where
  pub entries : List (Entry Float)
  pub bad : ℕ

module _ (rt : Runtime) where
  -- The parser that Decode chooses.
  unfoldable pub parser_for : Str → Option (Str → Option (Entry rt.Float))
  parser_for key = elim (kind_from_key key) [
    | none ↦ none
    | some alb ↦ some (if is_conn_log_key key then parse_alb_conn rt else parse_alb rt)
    | some nlb ↦ some (parse_nlb rt)
    | some classic ↦ some (parse_classic rt)
  ]

  -- The loop of Decode over the lines.
  unfoldable pub decode_lines : (Str → Option (Entry rt.Float)) → List Str → Decoded rt.Float
  decode_lines parse [] = record { entries = []; bad = 0 }
  decode_lines parse (s ∷ lines) =
      let rest = decode_lines parse lines in
      let line = trim_right_by (λ c. eqb c 13) s in
      if is_empty line then rest else elim (parse line) [
        | none ↦ record { entries = rest.entries; bad = suc rest.bad }
        | some e ↦ record { entries = e ∷ rest.entries; bad = rest.bad }
      ]

  -- Decode(key, r), where `read` stands for the bytes of r, unpacked and split into lines by
  -- packages gzip and bufio; its `none` is an error of theirs. Entries are returned with a
  -- LineError too, so only the other errors are `none`.
  unfoldable pub decode : Option (List Str) → Str → Option (Decoded rt.Float)
  decode read key = elim (parser_for key) [
    | none ↦ none
    | some parse ↦ elim read [ none ↦ none | some lines ↦ some (decode_lines parse lines) ]
  ]
