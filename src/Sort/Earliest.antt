-- ===== src/Sort/Earliest.antt =====
-- A stable sort whose first elements alone are kept: trimming a list before more elements are
-- appended to it changes nothing of the result.
use ctaudit.Prelude.{
  ℕ, zero, suc, ◌≡◌, refl, ap, Bool, false, List, [], ◌∷◌, ◌++◌, if◌then◌else◌, All, All-true, take,
  arith, Bool-cases, inl, inr,
}
use ctaudit.Sort.Laws.{sort_by-IsSortedBy}
use ctaudit.Sort.{insert_by, sort_by, IsStrictWeak, IsSortedBy}

module _ {A : Type 0} (less : A → A → Bool) where
  -- Insertion behind the elements that are not greater.
  insert_last : A → List A → List A
  insert_last y [] = y ∷ []
  insert_last y (z ∷ l) = if less y z then y ∷ z ∷ l else z ∷ insert_last y l

  -- The first `n` elements in sorted order.
  unfoldable pub earliest : ℕ → List A → List A
  earliest n xs = take n (sort_by less xs)

  take-take : (n : ℕ) (l : List A) → take n (take (suc n) l) ≡ take n l
  take-take zero l = refl
  take-take (suc n) [] = refl
  take-take (suc n) (x ∷ l) = ap (◌∷◌ x) (take-take n l)

  take_idem : (n : ℕ) (l : List A) → take n (take n l) ≡ take n l
  take_idem zero l = refl
  take_idem (suc n) [] = refl
  take_idem (suc n) (x ∷ l) = ap (◌∷◌ x) (take_idem n l)

  take-cons_take : (n : ℕ) (z : A) (l : List A) → take n (z ∷ take n l) ≡ take n (z ∷ l)
  take-cons_take zero z l = refl
  take-cons_take (suc n) z l = ap (◌∷◌ z) (take-take n l)

  take-insert_last :
      (n : ℕ) (y : A) (l : List A) → take n (insert_last y (take n l)) ≡ take n (insert_last y l)
  unfolding insert_last
  take-insert_last zero y l = refl
  take-insert_last (suc n) y [] = refl
  take-insert_last (suc n) y (z ∷ l) = elim (Bool-cases (less y z)) [
    | inl e ↦ rw e (ap (◌∷◌ y) (take-cons_take n z l))
    | inr e ↦ rw e (ap (◌∷◌ z) (take-insert_last n y l))
  ]

  take-insert_by :
      (n : ℕ) (y : A) (l : List A)
      → take n (insert_by less y (take n l)) ≡ take n (insert_by less y l)
  unfolding insert_by
  take-insert_by zero y l = refl
  take-insert_by (suc n) y [] = refl
  take-insert_by (suc n) y (z ∷ l) = elim (Bool-cases (less z y)) [
    | inl e ↦ rw e (ap (◌∷◌ z) (take-insert_by n y l))
    | inr e ↦ rw e (ap (◌∷◌ y) (take-cons_take n z l))
  ]

  take_agree_insert_by :
      (n : ℕ) (y : A) (l m : List A)
      → take n l ≡ take n m
      → take n (insert_by less y l) ≡ take n (insert_by less y m)
  take_agree_insert_by n y l m e = cc (take-insert_by n y l, take-insert_by n y m, e)

  take_agree_insert_last :
      (n : ℕ) (y : A) (l m : List A)
      → take n l ≡ take n m
      → take n (insert_last y l) ≡ take n (insert_last y m)
  take_agree_insert_last n y l m e = cc (take-insert_last n y l, take-insert_last n y m, e)

  -- The elements of a list go in behind, one after another.
  insert_all : List A → List A → List A
  insert_all l [] = l
  insert_all l (y ∷ ys) = insert_all (insert_last y l) ys

  take_agree_insert_all :
      (n : ℕ) (ys l m : List A)
      → take n l ≡ take n m
      → take n (insert_all l ys) ≡ take n (insert_all m ys)
  unfolding insert_all
  take_agree_insert_all n [] l m e = e
  take_agree_insert_all n (y ∷ ys) l m e =
      take_agree_insert_all n ys _ _ (take_agree_insert_last n y l m e)

  -- Only the first `n` of what is sorted into a list matter for its first `n`.
  pub take_agree_right :
      (n : ℕ) (xs ys zs : List A)
      → take n (sort_by less ys) ≡ take n (sort_by less zs)
      → take n (sort_by less (xs ++ ys)) ≡ take n (sort_by less (xs ++ zs))
  unfolding sort_by
  take_agree_right n [] ys zs e = e
  take_agree_right n (x ∷ xs) ys zs e = take_agree_insert_by n x _ _ (take_agree_right n xs ys zs e)

  insert_by_first :
      (x : A) (l : List A) → All (λ y. less y x ≡ false) l → insert_by less x l ≡ x ∷ l
  unfolding insert_by
  insert_by_first x [] h = refl
  insert_by_first x (y ∷ l) (e, h) = rw e refl

  sort_by_sorted : (l : List A) → IsSortedBy less l → sort_by less l ≡ l
  unfolding sort_by
  sort_by_sorted [] h = refl
  sort_by_sorted (x ∷ l) (hx, h) = rw (sort_by_sorted l h) (insert_by_first x l hx)

  All-take : (P : A → Type 0) (n : ℕ) (l : List A) → All P l → All P (take n l)
  All-take P zero l h = tt
  All-take P (suc n) [] h = tt
  All-take P (suc n) (x ∷ l) (hx, h) = (hx, All-take P n l h)

  take-IsSortedBy : (n : ℕ) (l : List A) → IsSortedBy less l → IsSortedBy less (take n l)
  take-IsSortedBy zero l h = tt
  take-IsSortedBy (suc n) [] h = tt
  take-IsSortedBy (suc n) (x ∷ l) (hx, h) = (All-take _ n l hx, take-IsSortedBy n l h)

  module _ (h : IsStrictWeak less (λ _. Unit)) where
    insert_by-insert_last :
        (x y : A) (l : List A)
        → insert_by less x (insert_last y l) ≡ insert_last y (insert_by less x l)
    unfolding insert_by insert_last
    insert_by-insert_last x y [] = ground (arith, h.asym x y tt tt)
    insert_by-insert_last x y (z ∷ l) = ground (
      arith,
      insert_by-insert_last x y l,
      h.weak x z y tt tt tt,
      h.weak y z x tt tt tt,
      h.weak z y x tt tt tt,
      h.weak x y z tt tt tt,
      h.asym x y tt tt,
      h.asym y z tt tt,
      h.asym z x tt tt,
    )

    insert_by-insert_all :
        (x : A) (ys l : List A)
        → insert_by less x (insert_all l ys) ≡ insert_all (insert_by less x l) ys
    unfolding insert_all
    insert_by-insert_all x [] l = refl
    insert_by-insert_all x (y ∷ ys) l =
        cc (insert_by-insert_all x ys (insert_last y l), insert_by-insert_last x y l)

    insert_all_singleton :
        (y : A) (ys : List A) → insert_by less y (insert_all [] ys) ≡ insert_all (y ∷ []) ys
    unfolding insert_by
    insert_all_singleton y ys = insert_by-insert_all y ys []

    sort_by-append : (xs ys : List A) → sort_by less (xs ++ ys) ≡ insert_all (sort_by less xs) ys
    unfolding sort_by insert_all insert_last
    sort_by-append [] [] = refl
    sort_by-append [] (y ∷ ys) = rw (sort_by-append [] ys) (insert_all_singleton y ys)
    sort_by-append (x ∷ xs) ys =
        cc (sort_by-append xs ys, insert_by-insert_all x ys (sort_by less xs))

    -- Trimming what came before changes none of the first `n`.
    pub earliest_trim_left :
        (n : ℕ) (xs ys : List A) → earliest n (earliest n xs ++ ys) ≡ earliest n (xs ++ ys)
    unfolding earliest
    earliest_trim_left n xs ys =
        rw
          (
            sort_by-append (take n (sort_by less xs)) ys,
            sort_by-append xs ys,
            sort_by_sorted _ (take-IsSortedBy n _ (sort_by-IsSortedBy less _ h xs (All-true xs))),
          )
          (take_agree_insert_all n ys _ _ (take_idem n (sort_by less xs)))

    -- Trimming what comes after changes none of the first `n`.
    pub earliest_trim_right :
        (n : ℕ) (xs ys : List A) → earliest n (xs ++ earliest n ys) ≡ earliest n (xs ++ ys)
    unfolding earliest
    earliest_trim_right n xs ys = take_agree_right n xs _ ys (
        rw (sort_by_sorted _ (take-IsSortedBy n _ (sort_by-IsSortedBy less _ h ys (All-true ys))))
          (take_idem n (sort_by less ys)))

    -- Lists with the same first `n` can stand for each other on either side of an append.
    pub earliest_agree :
        (n : ℕ) (xs xs' ys ys' : List A)
        → earliest n xs ≡ earliest n xs'
        → earliest n ys ≡ earliest n ys'
        → earliest n (xs ++ ys) ≡ earliest n (xs' ++ ys')
    earliest_agree n xs xs' ys ys' e f = cc (
      e,
      f,
      earliest_trim_left n xs ys,
      earliest_trim_left n xs' ys,
      earliest_trim_right n xs' ys,
      earliest_trim_right n xs' ys',
    )
