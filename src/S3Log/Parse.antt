-- ===== src/S3Log/Parse.antt =====
-- Parse and Decode of internal/s3log/s3log.go. The layout of time.Parse is the parameter
-- `clock`, whose result is in UTC and whose `none` is an error.
use ctaudit.Prelude.{
  ℕ, suc, Word, minus_one, Bool, false, ◌&&◌, ◌||◌, Option, none, some, map, List, [], ◌++◌,
  if◌then◌else◌, ltb, length, get_elem?, take, drop, or_else, is_empty, eqb,
}
use ctaudit.Text.{Str, codes, str_eq, has_prefix, equal_fold, cut, last_index_byte, trim_right_by}
use ctaudit.Text.Decimal.{parse_int}
use ctaudit.Instant.{Time}
use ctaudit.ElbLog.Parts.{index_query}
use ctaudit.LogLines.{Decoded, decode_lines, Checked, ok, refused}
use ctaudit.S3Log.{too_few, bad_time, missing_name, S3Entry, LineFault}
use ctaudit.S3Log.Tokens.{s3_fields}

-- get(i): the field, or nothing where the line has none or a dash.
unfoldable pub s3_get : List Str → ℕ → Str
unfolding codes str_eq
s3_get f i = elim (get_elem? f i) [ none ↦ [] | some s ↦ if str_eq s (codes "-") then [] else s ]

-- stripQuery(s)
unfoldable pub strip_query : Str → Str
strip_query s = elim (index_query s) [ none ↦ s | some i ↦ take i s ]

-- What follows the method: the path with its query, and the protocol where one stands last.
unfoldable pub split_proto : Str → Str × Str
unfolding codes
split_proto rest = elim (last_index_byte rest b' ') [
  | none ↦ (rest, [])
  | some i ↦
      if has_prefix (drop (suc i) rest) (codes "HTTP/")
      then (take i rest, drop (suc i) rest)
      else (rest, [])
]

-- splitRequest(s): method, path and protocol.
unfoldable pub split_request : Str → Str × Str × Str
split_request s =
    let parts = cut s b' ' in
    let rest = split_proto parts.1 in
    if is_empty s then ([], [], []) else (parts.0, strip_query rest.0, rest.1)

-- normTLS(s)
unfoldable pub norm_tls : Str → Str
unfolding codes
norm_tls s =
    if ltb 4 (length s) && equal_fold (take 4 s) (codes "tlsv") then codes "TLSv" ++ drop 4 s else s

-- num(s, unknown)
unfoldable pub num : Str → Word → Word
num s unknown = or_else (parse_int s) unknown

-- minFields, and the position of the time and of the TLS version
abbrev pub min_fields : ℕ
min_fields = 10

abbrev pub f_time : ℕ
f_time = 2

abbrev pub f_tls_version : ℕ
f_tls_version = 23

-- The request used plain HTTP: a REST operation whose TLS version is logged as a dash.
unfoldable pub plain_request : List Str → Str → Bool
unfolding codes str_eq
plain_request f operation = elim (get_elem? f f_tls_version) [
  | none ↦ false
  | some s ↦ str_eq s (codes "-") && has_prefix operation (codes "REST.")
]

-- The entry of a line that has enough fields, given its time.
unfoldable pub s3_entry : List Str → Time → S3Entry
unfolding codes
s3_entry f t =
    let request = split_request (s3_get f 8) in
    record {
      time = t;
      bucket = s3_get f 1;
      remote_ip = s3_get f 3;
      requester = s3_get f 4;
      request_id = s3_get f 5;
      operation = s3_get f 6;
      key = s3_get f 7;
      method = request.0;
      path = request.1;
      proto = request.2;
      status = num (s3_get f 9) 0;
      error_code = s3_get f 10;
      bytes_sent = num (s3_get f 11) 0;
      object_size = num (s3_get f 12) 0;
      total_time_ms = num (s3_get f 13) minus_one;
      turnaround_ms = num (s3_get f 14) minus_one;
      referer = strip_query (s3_get f 15);
      user_agent = s3_get f 16;
      sig_version = s3_get f 19;
      cipher_suite = s3_get f 20;
      auth_type = s3_get f 21;
      host_header = s3_get f 22;
      tls_version = norm_tls (s3_get f 23);
      access_point_arn = s3_get f 24;
      acl_required = equal_fold (s3_get f 25) (codes "yes");
      plain_http = plain_request f (s3_get f 6);
    }

-- What Parse returns of an entry: one without a bucket or an operation is refused.
unfoldable pub named : S3Entry → Checked LineFault S3Entry
named e = if is_empty e.bucket || is_empty e.operation then refused missing_name else ok e

module _ (clock : Str → Option Time) where
  unfoldable pub s3_parse_fields : List Str → Checked LineFault S3Entry
  unfolding named s3_entry
  s3_parse_fields f =
      if ltb (length f) min_fields
      then refused (too_few (length f))
      else elim (clock (or_else (get_elem? f f_time) [])) [
        | none ↦ refused bad_time
        | some t ↦ named (s3_entry f t)
      ]

  -- Parse(line)
  unfoldable pub s3_parse : Str → Checked LineFault S3Entry
  s3_parse line = elim (s3_fields line) [ refused e ↦ refused e | ok f ↦ s3_parse_fields f ]

  -- Decode(key, r), where `lines` stands for the bytes of r, unpacked and split into lines by
  -- packages gzip and bufio; its `none` is an error of theirs. A line's carriage returns go first.
  unfoldable pub s3_decode : Option (List Str) → Option (Decoded LineFault S3Entry)
  s3_decode none = none
  s3_decode (some lines) = some (decode_lines s3_parse (map (trim_right_by (λ c. eqb c 13)) lines))
