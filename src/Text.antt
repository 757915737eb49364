-- ===== src/Text.antt =====
-- Go strings as lists of bytes, with the functions of Go's package strings that the program calls.
-- Case folding is that of ASCII.
pub mod Laws
pub mod Decimal
pub mod Pieces
pub mod Split
use Prim.Native.Char.{code}
use ctaudit.Prelude.{
  ℕ, zero, suc, ◌+◌, ◌-◌, String, Bool, true, false, ◌&&◌, ◌||◌, Option, none, some, List, [], ◌∷◌,
  ◌++◌, map, eqb, leb, ltb, if◌then◌else◌, length, take, drop,
}
use mathlib.Core.List.{reverse}

abbrev pub Str : Type 0
Str = List ℕ

-- The bytes of an ASCII literal.
unfoldable pub codes : String → Str
codes String.[] = []
codes (String.◌∷◌ c s) = code c ∷ codes s

unfoldable pub str_eq : Str → Str → Bool
str_eq [] [] = true
str_eq (a ∷ s) (b ∷ t) = eqb a b && str_eq s t
str_eq _ _ = false

abbrev pub nonempty : Str → Bool
nonempty [] = false
nonempty (c ∷ s) = true

-- Go's `<` on strings.
unfoldable pub str_lt : Str → Str → Bool
str_lt [] [] = false
str_lt [] (b ∷ t) = true
str_lt (a ∷ s) [] = false
str_lt (a ∷ s) (b ∷ t) = ltb a b || (eqb a b && str_lt s t)

-- strings.HasPrefix and strings.HasSuffix
unfoldable pub has_prefix : Str → Str → Bool
has_prefix s [] = true
has_prefix [] (p ∷ ps) = false
has_prefix (c ∷ s) (p ∷ ps) = eqb c p && has_prefix s ps

unfoldable pub has_suffix : Str → Str → Bool
unfolding str_eq
has_suffix s p = leb (length p) (length s) && str_eq (drop (length s - length p) s) p

-- strings.TrimSuffix and strings.TrimPrefix
unfoldable pub trim_suffix : Str → Str → Str
unfolding has_suffix
trim_suffix s p = if has_suffix s p then take (length s - length p) s else s

unfoldable pub trim_prefix : Str → Str → Str
unfolding has_prefix
trim_prefix s p = if has_prefix s p then drop (length p) s else s

-- strings.Index: the first position at which `p` starts.
unfoldable pub index : Str → Str → Option ℕ
unfolding has_prefix
index [] p = if has_prefix [] p then some 0 else none
index (c ∷ s) p =
    let rest = index s p in
    if has_prefix (c ∷ s) p then some 0 else elim rest [ none ↦ none | some i ↦ some (suc i) ]

-- strings.IndexByte and strings.LastIndexByte
unfoldable pub index_byte : Str → ℕ → Option ℕ
index_byte [] b = none
index_byte (c ∷ s) b =
    let rest = index_byte s b in
    if eqb c b then some 0 else elim rest [ none ↦ none | some i ↦ some (suc i) ]

unfoldable pub last_index_byte : Str → ℕ → Option ℕ
last_index_byte [] b = none
last_index_byte (c ∷ s) b = elim (last_index_byte s b) [
  | none ↦ if eqb c b then some 0 else none
  | some i ↦ some (suc i)
]

-- strings.Contains
unfoldable pub contains : Str → Str → Bool
unfolding index
contains s p = elim (index s p) [ none ↦ false | some i ↦ true ]

unfoldable pub lower_byte : ℕ → ℕ
lower_byte c = if leb b'A' c && leb c b'Z' then c + 32 else c

unfoldable pub upper_byte : ℕ → ℕ
upper_byte c = if leb b'a' c && leb c b'z' then c - 32 else c

-- strings.ToUpper
unfoldable pub to_upper : Str → Str
unfolding upper_byte
to_upper = map upper_byte

-- strings.ToLower and strings.EqualFold
unfoldable pub to_lower : Str → Str
unfolding lower_byte
to_lower = map lower_byte

unfoldable pub equal_fold : Str → Str → Bool
unfolding to_lower str_eq
equal_fold s t = str_eq (to_lower s) (to_lower t)

-- The ASCII white space that strings.TrimSpace and strings.Fields recognise.
abbrev pub is_space : ℕ → Bool
is_space c = eqb c 32 || (leb 9 c && leb c 13)

-- Drops the leading bytes that pass the test, and the trailing ones.
unfoldable pub trim_left_by : (ℕ → Bool) → Str → Str
trim_left_by p [] = []
trim_left_by p (c ∷ s) = if p c then trim_left_by p s else c ∷ s

unfoldable pub trim_right_by : (ℕ → Bool) → Str → Str
unfolding trim_left_by
trim_right_by p s = reverse (trim_left_by p (reverse s))

-- strings.TrimSpace
unfoldable pub trim_space : Str → Str
unfolding trim_right_by
trim_space s = trim_right_by is_space (trim_left_by is_space s)

-- strings.Cut at one byte: what stands before and behind it, and whether it was found.
unfoldable pub cut : Str → ℕ → Str × Str × Bool
unfolding index_byte
cut s b = elim (index_byte s b) [
  | none ↦ (s, [], false)
  | some i ↦ (take i s, drop (suc i) s, true)
]

-- strings.Fields: `cur` is the field being read.
fields_from : Str → Str → List Str
fields_from [] [] = []
fields_from [] (c ∷ cur) = (c ∷ cur) ∷ []
fields_from (b ∷ s) cur =
    let split = if nonempty cur then cur ∷ fields_from s [] else fields_from s [] in
    let go_on = fields_from s (cur ++ b ∷ []) in if is_space b then split else go_on

unfoldable pub fields_of : Str → List Str
unfolding fields_from
fields_of s = fields_from s []
