-- ===== src/Map.antt =====
-- Go maps as association lists with one entry for each key. Go iterates over a map in an order
-- of its own choosing; here that is the order of the list, and nothing is claimed of the order.
pub mod Laws
pub mod Tally
pub mod Values
use ctaudit.Prelude.{
  ℕ, Bool, true, false, ◌≡◌, ◌↔◌, Option, none, some, List, [], ◌∷◌, eqb, eqb_iff, if◌then◌else◌,
  is_some, map,
}
use ctaudit.Text.{Str, str_eq}
use ctaudit.Text.Laws.{str_eq_iff}

-- Go's comparable types: `==` decides equality.
pub record Comparable {ℓ} (K : Type ℓ) : Type ℓ where
  pub same : K → K → Bool
  pub same_iff : (a b : K) → (same a b ≡ true) ↔ (a ≡ b)

instance abbrev pub nat_comparable : Comparable ℕ
nat_comparable = record { same = eqb; same_iff = eqb_iff }

instance abbrev pub str_comparable : Comparable Str
str_comparable = record { same = str_eq; same_iff = str_eq_iff }

abbrev pub keys {ℓ κ} : {K : Type ℓ} {V : Type κ} → List (K × V) → List K
keys [] = []
keys ((k, v) ∷ m) = k ∷ keys m

module _ {ℓ κ} {K : Type ℓ} {V : Type κ} ⦃c : Comparable K⦄ where
  -- `m[k]`, with its second result
  unfoldable pub find : K → List (K × V) → Option V
  find k [] = none
  find k ((j, v) ∷ m) = if c.same j k then some v else find k m

  -- `m[k] = v`
  unfoldable pub put : K → V → List (K × V) → List (K × V)
  put k v [] = (k, v) ∷ []
  put k v ((j, w) ∷ m) = if c.same j k then (j, v) ∷ m else (j, w) ∷ put k v m

  unfoldable pub has_key : K → List (K × V) → Bool
  unfolding find
  has_key k m = is_some (find k m)

module _ {ℓ} {K : Type ℓ} ⦃c : Comparable K⦄ where
  -- slices.Contains
  unfoldable pub member : K → List K → Bool
  member k [] = false
  member k (j ∷ l) = if c.same j k then true else member k l

  -- No key stands twice.
  abbrev pub IsDistinct : List K → Type 0
  IsDistinct [] = Unit
  IsDistinct (k ∷ l) = (member k l ≡ false) × IsDistinct l
