-- ===== src/Map/Laws.antt =====
-- Laws of lookup and update, the growth of a map, and the invariant of one entry for each key.
use ctaudit.Prelude.{
  ◌+◌, true, false, ◌≡◌, refl, ◌≢◌, some, List, [], ◌∷◌, if◌then◌else◌, length, arith, Bool-cases,
  inl, inr,
}
use ctaudit.Map.{Comparable, keys, find, put, has_key, member, IsDistinct}

module _ {ℓ} {K : Type ℓ} ⦃c : Comparable K⦄ where
  pub same_refl : (k : K) → c.same k k ≡ true
  same_refl k = (c.same_iff k k).1 refl

  pub same_of_ne : (j k : K) → j ≢ k → c.same j k ≡ false
  same_of_ne j k h = elim (Bool-cases (c.same j k)) [
    | inl e ↦ absurd (h ((c.same_iff j k).0 e))
    | inr e ↦ e
  ]

  pub ne_of_same : (j k : K) → c.same j k ≡ false → j ≢ k
  ne_of_same j k h e = cc (h, (c.same_iff j k).1 e)

module _ {ℓ κ} {K : Type ℓ} {V : Type κ} ⦃c : Comparable K⦄ where
  -- A read after a write.
  pub find-put :
      (k j : K) (v : V) (m : List (K × V))
      → find j (put k v m) ≡ (if c.same k j then some v else find j m)
  unfolding find put
  find-put k j v [] = refl
  find-put k j v ((i, w) ∷ m) =
      ground (arith, c.same_iff k j, c.same_iff i k, c.same_iff i j, find-put k j v m)

  pub find-put_self : (k : K) (v : V) (m : List (K × V)) → find k (put k v m) ≡ some v
  find-put_self k v m = rw (find-put k k v m, same_refl k)

  pub find-put_ne : (k j : K) (v : V) (m : List (K × V)) → k ≢ j → find j (put k v m) ≡ find j m
  find-put_ne k j v m h = rw (find-put k j v m, same_of_ne k j h)

  -- A write adds an entry exactly when the key is new.
  pub length-put :
      (k : K) (v : V) (m : List (K × V))
      → length (put k v m) ≡ (if has_key k m then length m else length m + 1)
  unfolding has_key find put
  length-put k v [] = refl
  length-put k v ((j, w) ∷ m) = ground (arith, length-put k v m)

  pub member-put :
      (k j : K) (v : V) (m : List (K × V))
      → member j (keys (put k v m)) ≡ (if c.same k j then true else member j (keys m))
  unfolding member put
  member-put k j v [] = refl
  member-put k j v ((i, w) ∷ m) =
      ground (arith, c.same_iff k j, c.same_iff i k, c.same_iff i j, member-put k j v m)

  pub put-IsDistinct :
      (k : K) (v : V) (m : List (K × V)) → IsDistinct (keys m) → IsDistinct (keys (put k v m))
  unfolding member put
  put-IsDistinct k v [] h = (refl, tt)
  put-IsDistinct k v ((i, w) ∷ m) (h, d) = elim (Bool-cases (c.same i k)) [
    | inl e ↦ rw e (h, d)
    | inr e ↦
        rw e (
          ground (arith, member-put k i v m, c.same_iff i k, c.same_iff k i),
          put-IsDistinct k v m d,
        )
  ]

  pub has_key-member : (k : K) (m : List (K × V)) → has_key k m ≡ member k (keys m)
  unfolding has_key find member
  has_key-member k [] = refl
  has_key-member k ((j, w) ∷ m) = ground (arith, has_key-member k m)
