-- ===== src/Sort/Laws.antt =====
-- A sort returns a sorted rearrangement.
use mathlib.Core.List.{Perm}
use mathlib.Core.List.Perm
use ctaudit.Prelude.{
  suc, Bool, false, List, [], ◌∷◌, ◌≡◌, refl, All, arith, length, Bool-cases, inl, inr,
}
use ctaudit.Sort.{insert_by, sort_by, IsSortedBy, IsStrictWeak}

module _ {ℓ} {A : Type ℓ} (less : A → A → Bool) where
  -- What holds of every element holds of every element after the sort.
  pub insert_by-All :
      (P : A → Type 0) (x : A) (l : List A) → P x → All P l → All P (insert_by less x l)
  unfolding insert_by
  insert_by-All P x [] px pl = (px, tt)
  insert_by-All P x (y ∷ l) px (py, pl) = elim (Bool-cases (less y x)) [
    | inl e ↦ rw e (py, insert_by-All P x l px pl)
    | inr e ↦ rw e (px, (py, pl))
  ]

  pub sort_by-All : (P : A → Type 0) (l : List A) → All P l → All P (sort_by less l)
  unfolding sort_by
  sort_by-All P [] h = tt
  sort_by-All P (x ∷ l) (px, pl) = insert_by-All P x _ px (sort_by-All P l pl)

  pub length-insert_by : (x : A) (l : List A) → length (insert_by less x l) ≡ suc (length l)
  unfolding insert_by
  length-insert_by x [] = refl
  length-insert_by x (y ∷ l) = ground (arith, length-insert_by x l)

  pub length-sort_by : (l : List A) → length (sort_by less l) ≡ length l
  unfolding sort_by
  length-sort_by [] = refl
  length-sort_by (x ∷ l) = omega (arith, length-insert_by x (sort_by less l), length-sort_by l)

  insert_by-perm : (x : A) (l : List A) → Perm (insert_by less x l) (x ∷ l)
  unfolding insert_by
  insert_by-perm x [] = Perm.refl _
  insert_by-perm x (y ∷ l) = elim (Bool-cases (less y x)) [
    | inl e ↦ rw e (Perm.trans (Perm.cons y (insert_by-perm x l)) (Perm.swap x y l))
    | inr e ↦ rw e (Perm.refl _)
  ]

  pub sort_by-perm : (l : List A) → Perm (sort_by less l) l
  unfolding sort_by
  sort_by-perm [] = Perm.refl _
  sort_by-perm (x ∷ l) = Perm.trans (insert_by-perm x _) (Perm.cons x (sort_by-perm l))

  module _ (P : A → Type 0) (order : IsStrictWeak less P) where
    later_All :
        (x y : A) (l : List A)
        → P x
        → P y
        → All P l
        → less y x ≡ false
        → All (λ z. less z y ≡ false) l
        → All (λ z. less z x ≡ false) l
    later_All x y [] px py pl e h = tt
    later_All x y (z ∷ l) px py (pz, pl) e (hz, h) =
        (order.weak x y z px py pz e hz, later_All x y l px py pl e h)

    insert_by-IsSortedBy :
        (x : A) (l : List A)
        → P x
        → All P l
        → IsSortedBy less l
        → IsSortedBy less (insert_by less x l)
    unfolding insert_by
    insert_by-IsSortedBy x [] px pl h = (tt, tt)
    insert_by-IsSortedBy x (y ∷ l) px (py, pl) (hy, hl) = elim (Bool-cases (less y x)) [
      | inl e ↦ rw e (
        insert_by-All (λ z. less z y ≡ false) x l (order.asym y x py px e) hy,
        insert_by-IsSortedBy x l px pl hl,
      )
      | inr e ↦ rw e ((e, later_All x y l px py pl e hy), (hy, hl))
    ]

    pub sort_by-IsSortedBy : (l : List A) → All P l → IsSortedBy less (sort_by less l)
    unfolding sort_by
    sort_by-IsSortedBy [] h = tt
    sort_by-IsSortedBy (x ∷ l) (px, h) =
        insert_by-IsSortedBy x _ px (sort_by-All P l h) (sort_by-IsSortedBy l h)
