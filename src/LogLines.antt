-- ===== src/LogLines.antt =====
-- The loop with which internal/s3log and internal/waflog decode an object line by line: blank lines
-- are skipped, and lines that cannot be parsed are counted and left out.
pub mod Accounts
use ctaudit.Prelude.{
  ℕ, suc, Option, none, some, List, [], ◌∷◌, ◌++◌, if◌then◌else◌, is_empty, or_else,
}
use ctaudit.Text.{Str, trim_space}

-- A value, or the error that a Go function returns in its place.
pub data Checked (E A : Type 0) : Type 0 where
  ok : A → Checked E A
  refused : E → Checked E A

-- LineError with the entries that Decode returns beside it: how many lines were refused, and the
-- first error.
pub record Decoded (E A : Type 0) : Type 0 where
  pub entries : List A
  pub bad : ℕ
  pub first : Option E

-- What one line that is not blank adds.
unfoldable pub line_result : {E A : Type 0} → Decoded E A → Checked E A → Decoded E A
line_result d (refused e) = record d { bad = suc d.bad; first = some (or_else d.first e) }
line_result d (ok a) = record d { entries = d.entries ++ a ∷ [] }

module _ {E A : Type 0} (parse : Str → Checked E A) where
  -- One line of the loop.
  unfoldable pub decode_line : Decoded E A → Str → Decoded E A
  decode_line d line = if is_empty (trim_space line) then d else line_result d (parse line)

  unfoldable pub decode_from : Decoded E A → List Str → Decoded E A
  unfolding decode_line
  decode_from d [] = d
  decode_from d (line ∷ lines) = decode_from (decode_line d line) lines

  unfoldable pub decode_lines : List Str → Decoded E A
  unfolding decode_from
  decode_lines lines = decode_from (record { entries = []; bad = 0; first = none }) lines
