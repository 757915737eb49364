-- ===== src/Prelude/Criteria.antt =====
-- The tests of a filter, which refuses what fails a criterion that is set.
use mathlib.Core.Path.{◌≡◌, refl}
use mathlib.Core.Logic.{◌≢◌, ◌↔◌, ◌⊎◌, inl, inr}
use mathlib.Core.Bool.{Bool, true, false, not, ◌&&◌}
use mathlib.Core.List.{List, [], ◌∷◌}
use native.Mathlib.Omega.{arith}
use ctaudit.Prelude.Tests.{if◌then◌else◌}
use ctaudit.Prelude.Lists.{is_empty}

-- A guard that refuses, before the rest of the chain.
pub guard_iff :
    (g rest : Bool) → ((if g then false else rest) ≡ true) ↔ ((g ≡ false) × (rest ≡ true))
guard_iff g rest = ground arith

-- A criterion is met or not set.
pub criterion_iff :
    {A : Type 0} {B : Type 0} (l : List A) (t : Bool)
    → (t ≡ true) ↔ B
    → ((not (is_empty l) && not t) ≡ false) ↔ (l ≢ [] → B)
criterion_iff [] t h = (λ _ n. absurd (n refl), λ _. refl)
criterion_iff (x ∷ l) t h = (λ g n. h.0 (ground arith), λ k. ground (arith, h.1 (k (ground arith))))

pub passed : (b : Bool) → not b ≡ false → b ≡ true
passed b h = ground arith

pub passing : (b : Bool) → b ≡ true → not b ≡ false
passing b h = ground arith

pub clear : (b : Bool) → not b ≡ true → b ≡ false
clear b h = ground arith

pub clearing : (b : Bool) → b ≡ false → not b ≡ true
clearing b h = ground arith

-- At either end.
pub either_iff :
    {A : Type 0} {B C : Type 0} (l : List A) (t u : Bool)
    → (t ≡ true) ↔ B
    → (u ≡ true) ↔ C
    → ((not (is_empty l) && not t && not u) ≡ false) ↔ (l ≢ [] → B ⊎ C)
either_iff {B = B} {C = C} [] t u h k = (λ _ n. absurd (n refl), λ _. refl)
either_iff {B = B} {C = C} (x ∷ l) t u h k = (λ g _. one_of g, λ b. refused (b (ground arith)))
  where
    passes : (a b : Bool) → (not a && not b) ≡ false → (a ≡ true) ⊎ (b ≡ true)
    passes a b g = ground arith

    one_of : (not t && not u) ≡ false → B ⊎ C
    one_of g = elim (passes t u g) [ inl a ↦ inl (h.0 a) | inr b ↦ inr (k.0 b) ]

    refused : B ⊎ C → (not t && not u) ≡ false
    refused (inl b) = rw (h.1 b) refl
    refused (inr c) = ground (arith, k.1 c)
