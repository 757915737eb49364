-- ===== src/FlowLog/Decode.antt =====
-- Header, ParseHeader, (Header).Parse and Stream of internal/flowlog/flowlog.go.
use ctaudit.Prelude.{
  ℕ, suc, Bool, true, false, not, ◌&&◌, ◌||◌, Option, none, some, List, [], ◌∷◌, if◌then◌else◌, leb,
  eqb, map, any_of, is_empty,
}
use ctaudit.Text.{
  Str, codes, str_eq, nonempty, cut, fields_of, has_suffix, trim_prefix, trim_suffix, trim_left_by,
  trim_space, last_index_byte, contains,
}
use ctaudit.Prelude.{drop}
use ctaudit.FlowLog.{Net, Flow, new_entry}
use ctaudit.FlowLog.Fields.{Field, f_ignore, is_start, field_of_name, set_field}

-- A name of a header, which may be wrapped as in ${srcaddr}.
unfoldable pub unwrap : Str → Str
unfolding codes
unwrap n = trim_suffix (trim_prefix n (codes "${")) (codes "}")

unfoldable pub begins_with_digit : Str → Bool
begins_with_digit [] = false
begins_with_digit (c ∷ n) = leb b'0' c && leb c b'9'

is_ignored : Field → Bool
is_ignored f_ignore = true
is_ignored _ = false

-- ParseHeader(line): the columns of the header.
unfoldable pub parse_header : Str → Option (List Field)
parse_header line =
    let names = map unwrap (fields_of line) in
    let cols = map field_of_name names in
    if is_empty names
    then none
    else if any_of begins_with_digit names
    then none
    else if any_of is_start cols
    then some cols
    else none

module _ (net : Net) where
  -- A column of Parse, given its text.
  unfoldable pub read_column : Field → Str → Flow net.Addr → Option (Flow net.Addr)
  unfolding codes str_eq is_ignored
  read_column f v e = if is_ignored f || str_eq v (codes "-") then some e else set_field net f v e

  -- The loop of Parse over the columns.
  unfoldable pub parse_columns : List Field → Str → Flow net.Addr → Option (Flow net.Addr)
  parse_columns [] rest e = if nonempty rest then none else some e
  parse_columns (f ∷ cols) rest e =
      let split = cut rest b' ' in
      let after = parse_columns cols (trim_left_by (λ c. eqb c b' ') split.1) in
      if nonempty rest
      then elim (read_column f split.0 e) [ none ↦ none | some e' ↦ after e' ]
      else none

  -- h.Parse(line)
  unfoldable pub parse_record : List Field → Str → Option (Flow net.Addr)
  parse_record cols line = parse_columns cols (trim_space line) (new_entry net)

  -- Stream over the records of an object: the entries it emits, and the lines it cannot parse.
  unfoldable pub stream_records : List Field → List Str → List (Flow net.Addr) × ℕ
  stream_records cols [] = ([], 0)
  stream_records cols (s ∷ lines) =
      let rest = stream_records cols lines in
      if is_empty (trim_space s) then rest else elim (parse_record cols (trim_space s)) [
        | none ↦ (rest.0, suc rest.1)
        | some e ↦ (e ∷ rest.0, rest.1)
      ]

  -- Stream over all lines: the first line that is not blank is the header. `none` is the error
  -- of a bad header.
  unfoldable pub stream_lines : List Str → Option (List (Flow net.Addr) × ℕ)
  stream_lines [] = some ([], 0)
  stream_lines (s ∷ lines) =
      let rest = stream_lines lines in
      if is_empty (trim_space s) then rest else elim (parse_header (trim_space s)) [
        | none ↦ none
        | some cols ↦ some (stream_records cols lines)
      ]

  -- Decode(key, r), where `read` stands for the lines of r, unpacked by packages gzip and bufio.
  unfoldable pub decode_flows : Option (List Str) → Str → Option (List (Flow net.Addr) × ℕ)
  unfolding codes has_suffix
  decode_flows read key =
      if has_suffix key (codes ".parquet")
      then none
      else elim read [ none ↦ none | some lines ↦ stream_lines lines ]

-- IsLogKey(key)
unfoldable pub is_flow_log_key : Str → Bool
unfolding codes has_suffix
is_flow_log_key key =
    let name : Str = elim (last_index_byte key b'/') [ none ↦ key | some i ↦ drop (suc i) key ] in
    if not (contains name (codes "_vpcflowlogs_"))
    then false
    else has_suffix name (codes ".log.gz") || has_suffix name (codes ".parquet")
