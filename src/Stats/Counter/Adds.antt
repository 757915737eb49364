-- ===== src/Stats/Counter/Adds.antt =====
-- A counter that adds one key after another.
use ctaudit.Prelude.{ℕ, ◌+◌, ◌%◌, ◌^◌, ◌≡◌, refl, List, [], ◌∷◌, ◌++◌, arith, if◌then◌else◌}
use ctaudit.Text.{Str, nonempty, str_eq}
use ctaudit.Text.Laws.{str_eq_iff}
use ctaudit.Map.{keys, IsDistinct, find, str_comparable}
use ctaudit.Map.Tally.{get, get-bump, get-bump_all, bump-IsDistinct}
use ctaudit.Stats.Counter.{Counter, add, merge}

-- The calls of `add` that a run of records makes on one counter.
unfoldable pub adds : List Str → Counter → Counter
adds [] c = c
adds (k ∷ ks) c = adds ks (add k c)

-- How often a key is among the keys added; the empty key never counts.
abbrev pub times : Str → List Str → ℕ
times k [] = 0
times k (j ∷ ks) = (if str_eq j k then (if nonempty j then 1 else 0) else 0) + times k ks

pub times-append : (k : Str) (xs ys : List Str) → times k (xs ++ ys) ≡ times k xs + times k ys
times-append k [] ys = omega arith
times-append k (x ∷ xs) ys = omega (arith, times-append k xs ys)

get-add :
    (k j : Str) (c : Counter)
    → get k (add j c) % 2 ^ 64
      ≡ (get k c + (if str_eq j k then (if nonempty j then 1 else 0) else 0)) % 2 ^ 64
unfolding add
get-add k j c = ground (arith, get-bump j k 1 c, str_eq_iff j k)

-- A counter counts how often each key was added.
get-adds :
    (k : Str) (ks : List Str) (c : Counter)
    → get k (adds ks c) % 2 ^ 64 ≡ (get k c + times k ks) % 2 ^ 64
unfolding adds
get-adds k [] c = omega arith
get-adds k (j ∷ ks) c = omega (arith, get-adds k ks (add j c), get-add k j c)

pub adds-IsDistinct :
    (ks : List Str) (c : Counter) → IsDistinct (keys c) → IsDistinct (keys (adds ks c))
unfolding adds add
adds-IsDistinct [] c d = d
adds-IsDistinct (k ∷ ks) c d =
    adds-IsDistinct ks (add k c) (unfold add in ground (arith, bump-IsDistinct k 1 c d))

-- Two counters hold the same counts.
abbrev pub SameCounts : Counter → Counter → Type 0
SameCounts c c' = (k : Str) → get k c % 2 ^ 64 ≡ get k c' % 2 ^ 64

-- Merging the counters of two workers counts what one worker would have counted.
pub merge-adds :
    (xs ys : List Str) → SameCounts (merge (adds ys []) (adds xs [])) (adds (xs ++ ys) [])
unfolding merge
merge-adds xs ys k = omega (
  arith,
  get-bump_all k (adds ys []) (adds xs []) (adds-IsDistinct ys [] tt),
  get-adds k xs [],
  get-adds k ys [],
  get-adds k (xs ++ ys) [],
  times-append k xs ys,
  get_nil k,
)
  where
    get_nil : (k : Str) → get {K = Str} k [] ≡ 0
    get_nil k = unfold get find in refl
