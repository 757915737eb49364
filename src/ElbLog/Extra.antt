-- ===== src/ElbLog/Extra.antt =====
-- Lines with more fields than are documented, and the lines of a whole object.
use ctaudit.Prelude.{
  ℕ, zero, suc, ◌+◌, ◌≤◌, ◌<◌, ◌≡◌, refl, ap, false, Option, none, some, List, [], ◌∷◌, ◌++◌,
  length, length-append, get_elem?, or_else, arith, ltb, eqb, is_empty, if◌then◌else◌, Option-cases,
  inl, inr,
}
use ctaudit.Text.{Str, trim_right_by}
use ctaudit.Instant.{Time}
use ctaudit.ElbLog.{Runtime, Entry}
use ctaudit.ElbLog.Tokens.RoundTrip.{write_line, fields-write_line}
use ctaudit.ElbLog.Parts.{dash, parse_time}
use ctaudit.ElbLog.Parse.{
  field, at, alb_entry, nlb_entry, classic_entry, alb_conn_entry, parse_fields, parse_alb,
  parse_nlb, parse_classic, parse_alb_conn,
}
use ctaudit.ElbLog.Keys.{decode_lines}

get_elem?-append :
    (f extra : List Str) (i : ℕ) → i < length f → get_elem? (f ++ extra) i ≡ get_elem? f i
get_elem?-append [] extra i h = absurd (omega arith)
get_elem?-append (x ∷ f) extra zero h = refl
get_elem?-append (x ∷ f) extra (suc i) h = get_elem?-append f extra i (omega arith)

module _ (f extra : List Str) where
  field-append : (i : ℕ) → i < length f → field (f ++ extra) i ≡ field f i
  unfolding field
  field-append i h = ap (λ o. or_else o []) (get_elem?-append f extra i h)

  at-append : (i : ℕ) → i < length f → at (f ++ extra) i ≡ at f i
  unfolding at
  at-append i h =
      ap (λ o. elim o as (λ _. Str) [ none ↦ [] | some s ↦ dash s ]) (get_elem?-append f extra i h)

module _ (rt : Runtime) (f extra : List Str) (t : Time) where
  alb_conn_entry-append : 14 ≤ length f → alb_conn_entry rt (f ++ extra) t ≡ alb_conn_entry rt f t
  unfolding alb_conn_entry
  alb_conn_entry-append h =
      let field_at = λ (i : ℕ) (k : i < 14). field-append f extra i (omega arith) in
      cc (
        field_at 1 (omega arith),
        field_at 2 (omega arith),
        field_at 3 (omega arith),
        field_at 4 (omega arith),
        field_at 5 (omega arith),
        field_at 6 (omega arith),
        field_at 7 (omega arith),
        field_at 8 (omega arith),
        field_at 9 (omega arith),
        field_at 10 (omega arith),
        field_at 11 (omega arith),
        field_at 12 (omega arith),
        field_at 13 (omega arith),
      )

  alb_entry-append : 30 ≤ length f → alb_entry rt (f ++ extra) t ≡ alb_entry rt f t
  unfolding alb_entry
  alb_entry-append h =
      let field_at = λ (i : ℕ) (k : i < 30). field-append f extra i (omega arith) in
      let at_at = λ (i : ℕ) (k : i < 30). at-append f extra i (omega arith) in
      cc (
        field_at 0 (omega arith),
        field_at 2 (omega arith),
        field_at 3 (omega arith),
        field_at 5 (omega arith),
        field_at 6 (omega arith),
        field_at 7 (omega arith),
        field_at 10 (omega arith),
        field_at 11 (omega arith),
        field_at 12 (omega arith),
        at_at 4 (omega arith),
        at_at 8 (omega arith),
        at_at 9 (omega arith),
        at_at 13 (omega arith),
        at_at 14 (omega arith),
        at_at 15 (omega arith),
        at_at 16 (omega arith),
        at_at 17 (omega arith),
        at_at 18 (omega arith),
        at_at 19 (omega arith),
        at_at 20 (omega arith),
        at_at 21 (omega arith),
        at_at 22 (omega arith),
        at_at 23 (omega arith),
        at_at 24 (omega arith),
        at_at 25 (omega arith),
        at_at 26 (omega arith),
        at_at 27 (omega arith),
        at_at 28 (omega arith),
        at_at 29 (omega arith),
      )

  nlb_entry-append : 22 ≤ length f → nlb_entry rt (f ++ extra) t ≡ nlb_entry rt f t
  unfolding nlb_entry
  nlb_entry-append h =
      let field_at = λ (i : ℕ) (k : i < 22). field-append f extra i (omega arith) in
      let at_at = λ (i : ℕ) (k : i < 22). at-append f extra i (omega arith) in
      cc (
        field_at 0 (omega arith),
        field_at 3 (omega arith),
        field_at 5 (omega arith),
        field_at 7 (omega arith),
        field_at 8 (omega arith),
        field_at 9 (omega arith),
        field_at 10 (omega arith),
        at_at 4 (omega arith),
        at_at 6 (omega arith),
        at_at 11 (omega arith),
        at_at 12 (omega arith),
        at_at 14 (omega arith),
        at_at 15 (omega arith),
        at_at 16 (omega arith),
        at_at 17 (omega arith),
        at_at 18 (omega arith),
        at_at 19 (omega arith),
        at_at 21 (omega arith),
      )

  classic_entry-append : 15 ≤ length f → classic_entry rt (f ++ extra) t ≡ classic_entry rt f t
  unfolding classic_entry
  classic_entry-append h =
      let field_at = λ (i : ℕ) (k : i < 15). field-append f extra i (omega arith) in
      let at_at = λ (i : ℕ) (k : i < 15). at-append f extra i (omega arith) in
      cc (
        field_at 1 (omega arith),
        field_at 2 (omega arith),
        field_at 4 (omega arith),
        field_at 5 (omega arith),
        field_at 6 (omega arith),
        field_at 9 (omega arith),
        field_at 10 (omega arith),
        field_at 11 (omega arith),
        at_at 3 (omega arith),
        at_at 7 (omega arith),
        at_at 8 (omega arith),
        at_at 12 (omega arith),
        at_at 13 (omega arith),
        at_at 14 (omega arith),
      )

module _ (rt : Runtime) (fs extra : List Str) where
  parse_fields-append :
      (least clock : ℕ) (make : List Str → Time → Entry rt.Float)
      → least ≤ length fs
      → clock < length fs
      → ((t : Time) → make (fs ++ extra) t ≡ make fs t)
      → parse_fields rt least clock make (fs ++ extra) ≡ parse_fields rt least clock make fs
  unfolding parse_fields
  parse_fields-append least clock make enough in_range same =
      let long : ltb (length (fs ++ extra)) least ≡ false =
        ground (arith, length-append fs extra) in
      let full : ltb (length fs) least ≡ false = ground arith in
      let clocks = ap (parse_time rt) (field-append fs extra clock in_range) in
      elim (Option-cases (parse_time rt (field fs clock))) [
        | inl e ↦ rw (long, full, clocks, e) refl
        | inr (t, e) ↦ rw (long, full, clocks, e) (ap some (same t))
      ]

-- Fields past the documented ones change nothing, whichever parser reads the line: 30 are documented
-- for requests to an application load balancer, 14 for its connections, 22 for a network and 15 for a
-- classic load balancer.
pub parse-extra :
    (rt : Runtime) (alb conn nlb classic extra : List Str)
    → 30 ≤ length alb
    → 14 ≤ length conn
    → 22 ≤ length nlb
    → 15 ≤ length classic
    → (parse_alb rt (write_line (alb ++ extra)) ≡ parse_alb rt (write_line alb))
      × (parse_alb_conn rt (write_line (conn ++ extra)) ≡ parse_alb_conn rt (write_line conn))
      × (parse_nlb rt (write_line (nlb ++ extra)) ≡ parse_nlb rt (write_line nlb))
      × (parse_classic rt (write_line (classic ++ extra)) ≡ parse_classic rt (write_line classic))
unfolding parse_alb parse_alb_conn parse_nlb parse_classic
parse-extra rt alb conn nlb classic extra a b c d = (
  rw (fields-write_line (alb ++ extra), fields-write_line alb)
      (parse_fields-append rt alb extra 13 1 (alb_entry rt) (omega arith) (omega arith)
        (λ t. alb_entry-append rt alb extra t a)),
  rw (fields-write_line (conn ++ extra), fields-write_line conn)
      (parse_fields-append rt conn extra 14 0 (alb_conn_entry rt) (omega arith) (omega arith)
        (λ t. alb_conn_entry-append rt conn extra t b)),
  rw (fields-write_line (nlb ++ extra), fields-write_line nlb)
      (parse_fields-append rt nlb extra 11 2 (nlb_entry rt) (omega arith) (omega arith)
        (λ t. nlb_entry-append rt nlb extra t c)),
  rw (fields-write_line (classic ++ extra), fields-write_line classic)
      (parse_fields-append rt classic extra 12 0 (classic_entry rt) (omega arith) (omega arith)
        (λ t. classic_entry-append rt classic extra t d)),
)

-- How many lines are not blank.
pub lines_of : List Str → ℕ
lines_of [] = 0
lines_of (s ∷ lines) =
    if is_empty (trim_right_by (λ c. eqb c 13) s) then lines_of lines else suc (lines_of lines)

-- Decoding loses no line: each one that is not blank is either an entry or counted as bad.
decode_lines-accounts :
    (rt : Runtime) (parse : Str → Option (Entry rt.Float)) (lines : List Str)
    → let d = decode_lines rt parse lines in length d.entries + d.bad ≡ lines_of lines
unfolding decode_lines lines_of
decode_lines-accounts rt parse [] = omega arith
decode_lines-accounts rt parse (s ∷ lines) = ground (arith, decode_lines-accounts rt parse lines)
