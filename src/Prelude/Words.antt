-- ===== src/Prelude/Words.antt =====
-- Go's 64-bit `int` and `int64` as words in two's complement: a number below 2 ^ 64.
use Prim.Native.Nat.{ℕ, ◌+◌, ◌-◌, ◌%◌, ◌^◌, compare, Ordering}
use mathlib.Core.Path.{◌≡◌}
use mathlib.Core.Bool.{Bool, true, false}
use native.Mathlib.Omega.{arith}

abbrev pub Word : Type 0
Word = ℕ

-- Addition wraps.
infixl 65 ◌+ʷ◌
abbrev pub ◌+ʷ◌ : Word → Word → Word
a +ʷ b = (a + b) % 2 ^ 64

-- The signed order: adding 2 ^ 63 modulo 2 ^ 64 maps it to the unsigned one.
abbrev pub signed : Word → ℕ
signed a = (a + 2 ^ 63) % 2 ^ 64

abbrev pub slt : Word → Word → Bool
slt a b = elim (compare (signed a) (signed b)) [ Ordering.lt ↦ true | _ ↦ false ]

abbrev pub minus_one : Word
minus_one = 2 ^ 64 - 1

pub +ʷ_comm : (a b : Word) → a +ʷ b ≡ b +ʷ a
+ʷ_comm a b = omega arith

pub +ʷ_assoc : (a b c : Word) → a +ʷ b +ʷ c ≡ a +ʷ (b +ʷ c)
+ʷ_assoc a b c = omega arith

pub +ʷ_left_comm : (a b c : Word) → a +ʷ (b +ʷ c) ≡ b +ʷ (a +ʷ c)
+ʷ_left_comm a b c = omega arith
