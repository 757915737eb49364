-- ===== src/Stats/Hours.antt =====
-- Counters by Unix hour, which the summaries of the sources other than CloudTrail keep.
use ctaudit.Prelude.{ℕ, ◌-◌, ◌/◌, ◌%◌, ◌^◌, Word, List, [], ◌∷◌, if◌then◌else◌, leb, or_else}
use ctaudit.Instant.{Time, second, is_zero}
use ctaudit.Map.{find, put, nat_comparable}
use ctaudit.Stats.Counter.{Counter}

-- Seconds from Go's zero time to 1970.
abbrev pub unix_epoch : ℕ
unix_epoch = 62_135_596_800

-- t.Unix() / 3600: the quotient of the signed number is rounded towards zero.
unfoldable pub unix_hour : Time → Word
unix_hour t =
    let s = t / second in
    if leb unix_epoch s
    then (s - unix_epoch) / 3600
    else (2 ^ 64 - (unix_epoch - s) / 3600) % 2 ^ 64

abbrev pub Hours : Type 0
Hours = List (Word × Counter)

-- `if m[h] == nil { m[h] = Counter{} }`, then a change of m[h].
unfoldable pub change_hour : Word → (Counter → Counter) → Hours → Hours
change_hour h f m = put h (f (or_else (find h m) [])) m

-- The hour of a time that is not zero.
unfoldable pub in_hour : Time → (Counter → Counter) → Hours → Hours
in_hour t f m = if is_zero t then m else change_hour (unix_hour t) f m

-- The loop over the hours of another summary.
unfoldable pub merge_hours : (Counter → Counter → Counter) → Hours → Hours → Hours
merge_hours with_counts [] m = m
merge_hours with_counts ((h, c) ∷ o) m = merge_hours with_counts o (change_hour h (with_counts c) m)
