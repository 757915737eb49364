-- ===== src/Sort/Unique.antt =====
-- Where the comparison tells different elements apart, a sort does not depend on the order in
-- which the elements come.
use mathlib.Core.List.{Permᴰ}
use ctaudit.Prelude.{Bool, false, subst, All, List, [], ◌∷◌, ◌≡◌, refl, ◌∙◌, arith}
use ctaudit.Sort.Laws.{sort_by-All}
use ctaudit.Sort.{insert_by, sort_by, IsStrictWeak}

module _ {ℓ} {A : Type ℓ} (less : A → A → Bool) (P : A → Type 0) (order : IsStrictWeak less P)
    (tells_apart : (a b : A) → P a → P b → less a b ≡ false → less b a ≡ false → a ≡ b) where
  insert_by_comm :
      (x y : A) (l : List A)
      → P x
      → P y
      → All P l
      → insert_by less x (insert_by less y l) ≡ insert_by less y (insert_by less x l)
  unfolding insert_by
  insert_by_comm x y [] px py h = ground (arith, order.asym x y px py, tells_apart x y px py)
  insert_by_comm x y (z ∷ l) px py (pz, h) = ground (
    arith,
    insert_by_comm x y l px py h,
    order.asym x y px py,
    tells_apart x y px py,
    order.weak x y z px py pz,
    order.weak y x z py px pz,
  )

  All-of_perm : {l₁ l₂ : List A} → Permᴰ l₁ l₂ → All P l₁ → All P l₂
  All-of_perm Permᴰ.nil h = tt
  All-of_perm (Permᴰ.cons e p) (hx, h) = (subst P e hx, All-of_perm p h)
  All-of_perm (Permᴰ.swap e f) (ha, (hb, h)) = (subst P f hb, (subst P e ha, h))
  All-of_perm (Permᴰ.trans p q) h = All-of_perm q (All-of_perm p h)

  pub sort_by_of_perm :
      {l₁ l₂ : List A} → Permᴰ l₁ l₂ → All P l₁ → sort_by less l₁ ≡ sort_by less l₂
  unfolding sort_by
  sort_by_of_perm Permᴰ.nil h = refl
  sort_by_of_perm (Permᴰ.cons e p) (hx, h) = cc (e, sort_by_of_perm p h)
  sort_by_of_perm (Permᴰ.swap {a = a} {b = b} {l = l} e f) (ha, (hb, h)) =
      cc (e, f, insert_by_comm a b (sort_by less l) ha hb (sort_by-All less P l h))
  sort_by_of_perm (Permᴰ.trans p q) h = sort_by_of_perm p h ∙ sort_by_of_perm q (All-of_perm p h)
