-- ===== src/Text/Split.antt =====
-- strings.Split and strings.Join at one byte.
use mathlib.Core.Path.{ap₂}
use ctaudit.Prelude.{
  ℕ, ◌≡◌, refl, ap, sym, ◌∙◌, false, Bool, List, [], ◌∷◌, ◌++◌, if◌then◌else◌, eqb, any_of, All,
  arith, Bool-cases, inl, inr,
}
use ctaudit.Text.{Str}

-- A byte goes before the first piece.
push : ℕ → List Str → List Str
push c [] = (c ∷ []) ∷ []
push c (x ∷ xs) = (c ∷ x) ∷ xs

-- strings.Split(s, b)
unfoldable pub split_at : ℕ → Str → List Str
unfolding push
split_at b [] = [] ∷ []
split_at b (c ∷ s) = let rest = split_at b s in if eqb c b then [] ∷ rest else push c rest

-- strings.Join(xs, b)
unfoldable pub join_with : ℕ → List Str → Str
join_with b [] = []
join_with b (x ∷ []) = x
join_with b (x ∷ y ∷ ys) = x ++ b ∷ join_with b (y ∷ ys)

abbrev pub has_byte : ℕ → Str → Bool
has_byte b s = any_of (λ c. eqb c b) s

module _ (b : ℕ) where
  -- The pieces hold no separator.
  abbrev pub AreFree : List Str → Type 0
  AreFree xs = All (λ x. has_byte b x ≡ false) xs

  push-AreFree : (c : ℕ) (xs : List Str) → eqb c b ≡ false → AreFree xs → AreFree (push c xs)
  unfolding push
  push-AreFree c [] e h = (ground arith, tt)
  push-AreFree c (x ∷ xs) e (hx, h) = (ground arith, h)

  pub split_at-AreFree : (s : Str) → AreFree (split_at b s)
  unfolding split_at
  split_at-AreFree [] = (refl, tt)
  split_at-AreFree (c ∷ s) = elim (Bool-cases (eqb c b)) [
    | inl e ↦ rw e (refl, split_at-AreFree s)
    | inr e ↦ rw e (push-AreFree c (split_at b s) e (split_at-AreFree s))
  ]

  join_with-push : (c : ℕ) (xs : List Str) → join_with b (push c xs) ≡ c ∷ join_with b xs
  unfolding push join_with
  join_with-push c [] = refl
  join_with-push c (x ∷ []) = refl
  join_with-push c (x ∷ y ∷ ys) = refl

  pub split_at_some : (s : Str) → (y : Str) × (ys : List Str) × (split_at b s ≡ y ∷ ys)
  unfolding split_at push
  split_at_some [] = ([], [], refl)
  split_at_some (c ∷ s) =
      let (y, ys, e) = split_at_some s in
      elim (Bool-cases (eqb c b)) [
        | inl k ↦ ([], split_at b s, rw k refl)
        | inr k ↦ (c ∷ y, ys, rw (k, e) refl)
      ]

  pub join_with-split_at : (s : Str) → join_with b (split_at b s) ≡ s
  unfolding split_at join_with
  join_with-split_at [] = refl
  join_with-split_at (c ∷ s) =
      let (y, ys, e) = split_at_some s in
      elim (Bool-cases (eqb c b)) [
        | inl k ↦
            let same : c ≡ b = ground arith in
            rw (k, e) (ap₂ ◌∷◌ (sym same) (ap (join_with b) (sym e) ∙ join_with-split_at s))
        | inr k ↦ rw k (join_with-push c (split_at b s) ∙ ap (◌∷◌ c) (join_with-split_at s))
      ]

  pub split_at_free : (x : Str) → has_byte b x ≡ false → split_at b x ≡ x ∷ []
  unfolding split_at push
  split_at_free [] h = refl
  split_at_free (c ∷ x) h = ground (arith, split_at_free x)

  split_at-append : (x s : Str) → has_byte b x ≡ false → split_at b (x ++ b ∷ s) ≡ x ∷ split_at b s
  unfolding split_at push
  split_at-append [] s h = ground arith
  split_at-append (c ∷ x) s h = ground (arith, split_at-append x s)

  pub split_at-join_with :
      (x : Str) (xs : List Str) → AreFree (x ∷ xs) → split_at b (join_with b (x ∷ xs)) ≡ x ∷ xs
  unfolding join_with
  split_at-join_with x [] (hx, h) = split_at_free x hx
  split_at-join_with x (y ∷ ys) (hx, h) =
      split_at-append x (join_with b (y ∷ ys)) hx ∙ ap (◌∷◌ x) (split_at-join_with y ys h)
