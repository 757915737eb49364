-- ===== src/Instant.antt =====
-- Go's time.Time, as the number of nanoseconds since its zero value (the start of year 1), and
-- time.Duration. Instants before the zero value, which no log of the program holds, are left out.
use ctaudit.Prelude.{ℕ, ◌-◌, ◌*◌, Bool, ltb, eqb}

abbrev pub Time : Type 0
Time = ℕ

abbrev pub zero_time : Time
zero_time = 0

-- t.IsZero()
abbrev pub is_zero : Time → Bool
is_zero t = eqb t 0

-- t.Before(u), and t.After(u) is `before u t`
abbrev pub before : Time → Time → Bool
before t u = ltb t u

-- Nanoseconds in a second, an hour and a day.
abbrev pub second : ℕ
second = 1_000_000_000

abbrev pub hour : ℕ
hour = 3600 * second

abbrev pub day : ℕ
day = 24 * hour

-- t.Add(-d)
abbrev pub minus : Time → ℕ → Time
minus t d = t - d
