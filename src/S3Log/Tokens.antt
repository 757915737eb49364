-- ===== src/S3Log/Tokens.antt =====
-- The tokenizer of internal/s3log/s3log.go. The source's indices are the state of a machine that
-- reads one byte after another, with the bytes of the field so far.
pub mod RoundTrip
use ctaudit.Prelude.{ℕ, Option, none, some, List, [], ◌∷◌, ◌++◌, if◌then◌else◌, eqb}
use ctaudit.Text.{Str}
use ctaudit.LogLines.{Checked, ok, refused}
use ctaudit.S3Log.{unterminated_bracket, unterminated_quote, LineFault}

pub data Place : Type 0 where
  gap bracketed quoted escaped bare : Place

-- One byte: the next place, the field so far, and the field that the byte ends.
unfoldable pub s3_step : Place → Str → ℕ → Place × Str × Option Str
s3_step gap cur c =
    if eqb c b' '
    then (gap, [], none)
    else if eqb c b'['
    then (bracketed, [], none)
    else if eqb c b'"'
    then (quoted, [], none)
    else (bare, c ∷ [], none)
s3_step bracketed cur c =
    if eqb c b']' then (gap, [], some cur) else (bracketed, cur ++ c ∷ [], none)
s3_step quoted cur c =
    if eqb c b'"'
    then (gap, [], some cur)
    else if eqb c b'\\'
    then (escaped, cur, none)
    else (quoted, cur ++ c ∷ [], none)
s3_step escaped cur c = (quoted, cur ++ c ∷ [], none)
s3_step bare cur c = if eqb c b' ' then (gap, [], some cur) else (bare, cur ++ c ∷ [], none)

-- A field goes before the fields of the rest of the line, unless the rest is refused.
abbrev pub prepend : Option Str → Checked LineFault (List Str) → Checked LineFault (List Str)
prepend none r = r
prepend (some f) (ok fs) = ok (f ∷ fs)
prepend (some f) (refused e) = refused e

unfoldable pub s3_read : Place → Str → Str → Checked LineFault (List Str)
unfolding s3_step
s3_read gap cur [] = ok []
s3_read bracketed cur [] = refused unterminated_bracket
s3_read quoted cur [] = refused unterminated_quote
s3_read escaped cur [] = refused unterminated_quote
s3_read bare cur [] = ok (cur ∷ [])
s3_read m cur (c ∷ s) = let (m', cur', out) = s3_step m cur c in prepend out (s3_read m' cur' s)

-- fields(line)
unfoldable pub s3_fields : Str → Checked LineFault (List Str)
unfolding s3_read
s3_fields line = s3_read gap [] line
