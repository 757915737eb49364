-- ===== src/Map/Tally.antt =====
-- Maps from keys to counts: `m[k] += n` on 64-bit words, where a missing key reads as 0.
use ctaudit.Prelude.{
  ◌%◌, ◌^◌, Word, ◌+ʷ◌, false, ◌≡◌, or_else, List, [], ◌∷◌, if◌then◌else◌, arith, Bool-cases, inl,
  inr,
}
use ctaudit.Map.{Comparable, keys, find, put, has_key, member, IsDistinct}
use ctaudit.Map.Laws.{find-put, has_key-member, put-IsDistinct}

module _ {ℓ} {K : Type ℓ} ⦃c : Comparable K⦄ where
  -- `m[k]`
  unfoldable pub get : K → List (K × Word) → Word
  get k m = or_else (find k m) 0

  -- `m[k] += n`
  unfoldable pub bump : K → Word → List (K × Word) → List (K × Word)
  bump k n m = put k (get k m +ʷ n) m

  -- `for k, v := range o { m[k] += v }`
  unfoldable pub bump_all : List (K × Word) → List (K × Word) → List (K × Word)
  bump_all [] m = m
  bump_all ((k, v) ∷ o) m = bump_all o (bump k v m)

  pub get-bump :
      (k j : K) (n : Word) (m : List (K × Word))
      → get j (bump k n m) ≡ (if c.same k j then get k m +ʷ n else get j m)
  unfolding get bump
  get-bump k j n m = ground (arith, find-put k j (or_else (find k m) 0 +ʷ n) m)

  pub bump-IsDistinct :
      (k : K) (n : Word) (m : List (K × Word))
      → IsDistinct (keys m)
      → IsDistinct (keys (bump k n m))
  unfolding bump
  bump-IsDistinct k n m d = put-IsDistinct k (get k m +ʷ n) m d

  pub bump_all-IsDistinct :
      (o m : List (K × Word)) → IsDistinct (keys m) → IsDistinct (keys (bump_all o m))
  unfolding bump_all
  bump_all-IsDistinct [] m d = d
  bump_all-IsDistinct ((k, v) ∷ o) m d =
      bump_all-IsDistinct o (bump k v m) (bump-IsDistinct k v m d)

  pub get_absent : (k : K) (m : List (K × Word)) → member k (keys m) ≡ false → get k m ≡ 0
  unfolding get has_key
  get_absent k m h = ground (arith, has_key-member k m)

  get-cons :
      (j k : K) (v : Word) (o : List (K × Word))
      → get j ((k, v) ∷ o) ≡ (if c.same k j then v else get j o)
  unfolding get find
  get-cons j k v o = ground arith

  -- Adding a map entry by entry adds the counts of each key.
  pub get-bump_all :
      (j : K) (o m : List (K × Word))
      → IsDistinct (keys o)
      → get j (bump_all o m) % 2 ^ 64 ≡ get j m +ʷ get j o
  unfolding bump_all
  get-bump_all j [] m d = unfold get find in omega arith
  get-bump_all j ((k, v) ∷ o) m (new, d) = elim (Bool-cases (c.same k j)) [
    | inl e ↦
        let same = (c.same_iff k j).0 e in
        let absent = get_absent k o new in
        ground
          (arith, get-bump_all j o (bump k v m) d, get-bump k j v m, get-cons j k v o, same, absent)
    | inr e ↦ ground (arith, get-bump_all j o (bump k v m) d, get-bump k j v m, get-cons j k v o)
  ]
