-- ===== src/Stats/Counter/Capped.antt =====
-- Capped additions: the map stays bounded, and nothing is lost from the total.
use ctaudit.Prelude.{
  ℕ, ◌+◌, ◌%◌, ◌^◌, ◌≤◌, ◌≡◌, Word, ◌+ʷ◌, slt, true, List, [], ◌∷◌, if◌then◌else◌, length, arith,
}
use ctaudit.Text.{Str, nonempty, str_eq}
use ctaudit.Text.Laws.{str_eq_refl}
use ctaudit.Map.{Comparable, keys, find, put, has_key, str_comparable, IsDistinct}
use ctaudit.Map.Laws.{length-put, find-put}
use ctaudit.Map.Tally.{get, bump, bump-IsDistinct}
use ctaudit.Stats.Counter.{Counter, default_max_keys, other_key, add_capped, merge_capped}

-- The sum of all counts.
abbrev pub total {ℓ} : {K : Type ℓ} → List (K × Word) → ℕ
total [] = 0
total ((k, v) ∷ m) = v + total m

module _ {ℓ} {K : Type ℓ} ⦃c : Comparable K⦄ where
  total-put : (k : K) (w : Word) (m : List (K × Word)) → total (put k w m) + get k m ≡ total m + w
  unfolding put get find
  total-put k w [] = omega arith
  total-put k w ((j, v) ∷ m) = ground (arith, total-put k w m)

  pub total-bump :
      (k : K) (n : Word) (m : List (K × Word)) → total (bump k n m) % 2 ^ 64 ≡ total m +ʷ n
  unfolding bump
  total-bump k n m = omega (arith, total-put k (get k m +ʷ n) m)

  pub length-bump :
      (k : K) (n : Word) (m : List (K × Word))
      → length (bump k n m) ≡ (if has_key k m then length m else length m + 1)
  unfolding bump
  length-bump k n m = length-put k (get k m +ʷ n) m

-- The limit that a `max` stands for.
abbrev pub limit_of : Word → ℕ
limit_of max = if slt 0 max then max else default_max_keys

-- Fewer keys than the limit, or the limit reached and the other key beside it at most.
abbrev pub IsBounded : Word → Counter → Type 0
IsBounded max c = length c ≤ (if has_key other_key c then limit_of max + 1 else limit_of max)

has_key-bump :
    (k j : Str) (n : Word) (c : Counter)
    → has_key j (bump k n c) ≡ (if str_eq k j then true else has_key j c)
unfolding has_key bump
has_key-bump k j n c = ground (arith, find-put k j (get k c +ʷ n) c)

pub add_capped-IsBounded :
    (key : Str) (n max : Word) (c : Counter)
    → IsBounded max c
    → IsBounded max (add_capped key n max c)
unfolding add_capped
add_capped-IsBounded key n max c h = ground (
  arith,
  length-bump key n c,
  length-bump other_key n c,
  has_key-bump key other_key n c,
  has_key-bump other_key other_key n c,
  str_eq_refl other_key,
)

-- Where the key is not empty, an addition adds its amount to the total whether or not there is
-- room for the key.
pub total-add_capped :
    (key : Str) (n max : Word) (c : Counter)
    → nonempty key ≡ true
    → total (add_capped key n max c) % 2 ^ 64 ≡ total c +ʷ n
unfolding add_capped
total-add_capped key n max c h = ground (arith, total-bump key n c, total-bump other_key n c)

-- A counter stays within its cap, with at most the other key beyond it, whatever is merged in.
pub merge_capped-IsBounded :
    (o : Counter) (max : Word) (c : Counter)
    → IsBounded max c
    → IsBounded max (merge_capped o max c)
unfolding merge_capped
merge_capped-IsBounded [] max c h = h
merge_capped-IsBounded ((k, v) ∷ o) max c h =
    merge_capped-IsBounded o max (add_capped k v max c) (add_capped-IsBounded k v max c h)

-- No key of a counter is empty: an addition to the empty key is ignored.
abbrev pub HasNames : Counter → Type 0
HasNames [] = Unit
HasNames ((k, v) ∷ c) = (nonempty k ≡ true) × HasNames c

-- A merge neither loses nor invents counts, though keys past the cap are folded together.
pub total-merge_capped :
    (o : Counter) (max : Word) (c : Counter)
    → HasNames o
    → total (merge_capped o max c) % 2 ^ 64 ≡ total c +ʷ total o
unfolding merge_capped
total-merge_capped [] max c h = omega arith
total-merge_capped ((k, v) ∷ o) max c (name, h) =
    omega
      (arith, total-merge_capped o max (add_capped k v max c) h, total-add_capped k v max c name)

pub add_capped-IsDistinct :
    (key : Str) (n max : Word) (c : Counter)
    → IsDistinct (keys c)
    → IsDistinct (keys (add_capped key n max c))
unfolding add_capped
add_capped-IsDistinct key n max c d =
    ground (arith, bump-IsDistinct key n c d, bump-IsDistinct other_key n c d)
