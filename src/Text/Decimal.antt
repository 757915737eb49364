-- ===== src/Text/Decimal.antt =====
-- strconv: decimal numbers to text and back. The fuel of `digits` is the number itself, which has
-- no more digits than that.
use ctaudit.Prelude.{
  ℕ, zero, suc, ◌+◌, ◌-◌, ◌*◌, ◌/◌, ◌%◌, ◌^◌, Word, Bool, true, false, ◌||◌, Option, none, some, [],
  ◌∷◌, if◌then◌else◌, eqb, ltb, leb,
}
use ctaudit.Text.{Str}

digits : ℕ → ℕ → Str → Str
digits zero n out = out
digits (suc fuel) n out =
    let rest = digits fuel (n / 10) ((b'0' + n % 10) ∷ out) in if eqb n 0 then out else rest

-- strconv.Itoa, for a number that is not negative.
unfoldable pub format : ℕ → Str
unfolding digits
format n = if eqb n 0 then b'0' ∷ [] else digits n n []

-- The value that a run of digits continues to; `none` on a byte that is no digit.
scan : Str → ℕ → Option ℕ
scan [] n = some n
scan (c ∷ s) n =
    let rest = scan s (n * 10 + (c - b'0')) in if ltb c b'0' || ltb b'9' c then none else rest

-- The magnitude of a decimal text: at least one digit and nothing else.
magnitude : Str → Option ℕ
unfolding scan
magnitude [] = none
magnitude (c ∷ s) = scan (c ∷ s) 0

-- The word that a sign and a magnitude stand for; out of range is an error.
signed_word : Bool → ℕ → Option Word
signed_word false n = if ltb n (2 ^ 63) then some n else none
signed_word true n = if leb n (2 ^ 63) then some ((2 ^ 64 - n) % 2 ^ 64) else none

with_sign : Bool → Str → Option Word
unfolding magnitude signed_word
with_sign negative s = elim (magnitude s) [ none ↦ none | some n ↦ signed_word negative n ]

-- strconv.ParseInt(s, 10, 64) and strconv.Atoi: `none` is any error.
unfoldable pub parse_int : Str → Option Word
unfolding with_sign
parse_int [] = none
parse_int (c ∷ s) =
    if eqb c b'-'
    then with_sign true s
    else if eqb c b'+'
    then with_sign false s
    else with_sign false (c ∷ s)

-- The value that ParseInt returns whether or not there is an error: 0 for a text that is no
-- number, and the nearest bound for a number out of range, whose remaining bytes are not read.
saturated : Str → ℕ → Option ℕ
saturated [] n = some n
saturated (c ∷ s) n =
    let n' = n * 10 + (c - b'0') in
    let rest = saturated s n' in
    if ltb c b'0' || ltb b'9' c then none else if leb (2 ^ 64) n' then some (2 ^ 64) else rest

bounded_word : Bool → ℕ → Word
bounded_word false n = if ltb n (2 ^ 63) then n else 2 ^ 63 - 1
bounded_word true n = if leb n (2 ^ 63) then (2 ^ 64 - n) % 2 ^ 64 else 2 ^ 63

value_with_sign : Bool → Str → Word
unfolding saturated bounded_word
value_with_sign negative [] = 0
value_with_sign negative (c ∷ s) = elim (saturated (c ∷ s) 0) [
  | none ↦ 0
  | some n ↦ bounded_word negative n
]

unfoldable pub int_value : Str → Word
unfolding value_with_sign
int_value [] = 0
int_value (c ∷ s) =
    if eqb c b'-'
    then value_with_sign true s
    else if eqb c b'+'
    then value_with_sign false s
    else value_with_sign false (c ∷ s)
