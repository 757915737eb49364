-- ===== src/ElbLog/Tokens.antt =====
-- The tokenizer of internal/elblog/elblog.go. The source's indices are the state of a machine
-- that reads one byte after another: between fields, inside a quoted field, behind a backslash
-- in one, or inside a bare field, with the bytes of the field so far.
pub mod RoundTrip
use ctaudit.Prelude.{
  ℕ, zero, suc, ◌≡◌, ◌≢◌, refl, ap, Bool, true, false, not, ◌&&◌, ◌||◌, Option, none, some, List,
  [], ◌∷◌, ◌++◌, append_assoc, append-nil, if◌then◌else◌, eqb, All, arith, Bool-cases, inl, inr,
}
use ctaudit.Text.{Str}

pub data Mode : Type 0 where
  between quoted escaped bare : Mode

-- One byte: the next mode, the field so far, and the field that the byte ends.
unfoldable pub step : Mode → Str → ℕ → Mode × Str × Option Str
step between cur c =
    if eqb c b' '
    then (between, [], none)
    else if eqb c b'"'
    then (quoted, [], none)
    else (bare, c ∷ [], none)
step quoted cur c =
    if eqb c b'"'
    then (between, [], some cur)
    else if eqb c b'\\'
    then (escaped, cur, none)
    else (quoted, cur ++ c ∷ [], none)
step escaped cur c = (quoted, cur ++ c ∷ [], none)
step bare cur c = if eqb c b' ' then (between, [], some cur) else (bare, cur ++ c ∷ [], none)

abbrev pub emit : Option Str → List Str → List Str
emit none fs = fs
emit (some f) fs = f ∷ fs

-- A backslash that ends the line stands for itself.
unfoldable pub read : Mode → Str → Str → List Str
unfolding step
read between cur [] = []
read quoted cur [] = cur ∷ []
read escaped cur [] = (cur ++ b'\\' ∷ []) ∷ []
read bare cur [] = cur ∷ []
read m cur (c ∷ s) = let (m', cur', out) = step m cur c in emit out (read m' cur' s)

-- fields(line)
unfoldable pub fields : Str → List Str
unfolding read
fields line = read between [] line
