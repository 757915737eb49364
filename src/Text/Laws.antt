-- ===== src/Text/Laws.antt =====
-- Laws of the text functions.
use ctaudit.Prelude.{ℕ, true, ◌≡◌, refl, ◌↔◌, ◌≢◌, [], ◌∷◌, ◌++◌, arith}
use ctaudit.Text.{Str, nonempty, str_eq, has_prefix, lower_byte, to_lower, equal_fold}

str_eq→≡ : (s t : Str) → str_eq s t ≡ true → s ≡ t
unfolding str_eq
str_eq→≡ [] [] h = refl
str_eq→≡ [] (b ∷ t) h = ground arith
str_eq→≡ (a ∷ s) [] h = ground arith
str_eq→≡ (a ∷ s) (b ∷ t) h = ground (arith, str_eq→≡ s t)

pub str_eq_refl : (s : Str) → str_eq s s ≡ true
unfolding str_eq
str_eq_refl [] = refl
str_eq_refl (a ∷ s) = ground (arith, str_eq_refl s)

pub str_eq_iff : (s t : Str) → (str_eq s t ≡ true) ↔ (s ≡ t)
str_eq_iff s t = (str_eq→≡ s t, λ e. rw e (str_eq_refl t))

lower_byte_idem : (c : ℕ) → lower_byte (lower_byte c) ≡ lower_byte c
unfolding lower_byte
lower_byte_idem c = ground arith

pub to_lower_idem : (s : Str) → to_lower (to_lower s) ≡ to_lower s
unfolding to_lower
to_lower_idem [] = refl
to_lower_idem (c ∷ s) = cc (lower_byte_idem c, to_lower_idem s)

-- The letter case of either text plays no part in the comparison.
pub equal_fold-to_lower : (s t : Str) → equal_fold (to_lower s) (to_lower t) ≡ equal_fold s t
unfolding equal_fold
equal_fold-to_lower s t = rw (to_lower_idem s, to_lower_idem t)

pub has_prefix-append : (p s : Str) → has_prefix (p ++ s) p ≡ true
unfolding has_prefix
has_prefix-append [] [] = refl
has_prefix-append [] (c ∷ s) = refl
has_prefix-append (c ∷ p) s = ground (arith, has_prefix-append p s)

pub nonempty_iff : (s : Str) → (nonempty s ≡ true) ↔ (s ≢ [])
nonempty_iff [] = ground arith
nonempty_iff (c ∷ s) = ground arith

pub equal_fold_iff : (s t : Str) → (equal_fold s t ≡ true) ↔ (to_lower s ≡ to_lower t)
unfolding equal_fold
equal_fold_iff s t = str_eq_iff (to_lower s) (to_lower t)
