-- ===== src/Sort.antt =====
-- sort.Slice, sort.SliceStable and sort.Strings. The result of a sort by a strict weak order is a
-- sorted rearrangement; an insertion sort gives it, and keeps equal elements in order.
pub mod Laws
pub mod Unique
pub mod Earliest
use ctaudit.Prelude.{Bool, true, false, List, [], ◌∷◌, if◌then◌else◌, ◌≡◌, All}

module _ {ℓ} {A : Type ℓ} (less : A → A → Bool) where
  unfoldable pub insert_by : A → List A → List A
  insert_by x [] = x ∷ []
  insert_by x (y ∷ ys) = if less y x then y ∷ insert_by x ys else x ∷ y ∷ ys

  unfoldable pub sort_by : List A → List A
  unfolding insert_by
  sort_by [] = []
  sort_by (x ∷ xs) = insert_by x (sort_by xs)

  -- No element stands before one that is less.
  abbrev pub IsSortedBy : List A → Type 0
  IsSortedBy [] = Unit
  IsSortedBy (x ∷ xs) = All (λ y. less y x ≡ false) xs × IsSortedBy xs

  -- What sort.Slice asks of its comparison, on the elements of a kind.
  pub record IsStrictWeak (P : A → Type 0) : Type ℓ where
    pub asym : (a b : A) → P a → P b → less a b ≡ true → less b a ≡ false
    pub weak :
        (a b c : A) → P a → P b → P c → less b a ≡ false → less c b ≡ false → less c a ≡ false
