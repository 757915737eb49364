-- ===== src/WafLog/Exploit.antt =====
-- Which allowed requests carried the payload of an exploit.
use ctaudit.Prelude.{
  ◌≡◌, ◌≢◌, ◌↔◌, ◌⊎◌, inl, inr, refl, subst, if◌then◌else◌, Bool, true, false, ◌||◌, Option, none,
  some, List, [], ◌∷◌, any_of, any_of_iff, Some, Some_iff, arith, Option-cases,
}
use ctaudit.Text.{Str, codes, str_eq, nonempty, has_prefix}
use ctaudit.Text.Laws.{str_eq_iff, nonempty_iff}
use ctaudit.WafLog.{WafEntry, exploit_groups, exploit_labels, first_with, exploit_match}

-- The text begins with one of the prefixes.
abbrev pub Begins : List Str → Str → Type 0
Begins prefixes s = Some (λ p. has_prefix s p ≡ true) prefixes

some_inj : {A : Type 0} {a b : A} → some a ≡ some b → a ≡ b
some_inj h = cc

picked :
    (b : Bool) (t s : Str) (rest : Option Str)
    → (if b then some t else rest) ≡ some s
    → ((b ≡ true) × (t ≡ s)) ⊎ (rest ≡ some s)
picked true t s rest h = inl (refl, some_inj h)
picked false t s rest h = inr h

module _ (prefixes : List Str) where
  abbrev hit : Str → Bool
  hit s = any_of (has_prefix s) prefixes

  first_with-none : (l : List Str) → first_with prefixes l ≡ none → any_of hit l ≡ false
  unfolding first_with
  first_with-none [] h = refl
  first_with-none (s ∷ l) h = ground (arith, first_with-none l)

  hit_first : (l : List Str) (t : Str) → hit t ≡ true → any_of hit (t ∷ l) ≡ true
  hit_first l t e = ground arith

  hit_later : (l : List Str) (t : Str) → any_of hit l ≡ true → any_of hit (t ∷ l) ≡ true
  hit_later l t e = ground arith

  first_with-some :
      (l : List Str) (s : Str)
      → first_with prefixes l ≡ some s
      → (any_of hit l ≡ true) × (hit s ≡ true)
  unfolding first_with
  first_with-some [] s h = ground arith
  first_with-some (t ∷ l) s h = elim (picked (hit t) t s (first_with prefixes l) h) [
    | inl (e, k) ↦ (hit_first l t e, subst (λ s. hit s ≡ true) k e)
    | inr k ↦ let r = first_with-some l s k in (hit_later l t r.0, r.1)
  ]

  hits_iff : (l : List Str) → (any_of hit l ≡ true) ↔ Some (Begins prefixes) l
  hits_iff l =
      let e = any_of_iff hit l in
      let s =
        Some_iff {P = λ s. hit s ≡ true} {Q = Begins prefixes}
          (λ s. any_of_iff (has_prefix s) prefixes) l in
      (λ h. s.0 (e.0 h), λ h. e.1 (s.1 h))

-- A text that begins with a prefix of either list is not empty.
hit_nonempty : (s : Str) → (hit exploit_groups s ≡ true) ⊎ (hit exploit_labels s ≡ true) → s ≢ []
unfolding exploit_groups exploit_labels has_prefix
hit_nonempty [] h = elim h [ inl k ↦ ground arith | inr k ↦ ground arith ]
hit_nonempty (c ∷ s) h = λ e. ground arith

module _ (e : WafEntry) where
  abbrev by_rule : Bool
  by_rule = any_of (hit exploit_groups) e.count_rules

  abbrev by_label : Bool
  by_label = any_of (hit exploit_labels) e.labels

  nonempty-allowed :
      str_eq e.action (codes "ALLOW") ≡ true → nonempty (exploit_match e) ≡ (by_rule || by_label)
  unfolding exploit_match
  nonempty-allowed h = elim (Option-cases (first_with exploit_groups e.count_rules)) [
    | inr (r, k) ↦
        let f = first_with-some exploit_groups e.count_rules r k in
        rw (h, k, f.0) ((nonempty_iff r).1 (hit_nonempty r (inl f.1)))
    | inl k ↦ elim (Option-cases (first_with exploit_labels e.labels)) [
      | inr (l, m) ↦
          let f = first_with-some exploit_labels e.labels l m in
          rw (h, k, m, first_with-none exploit_groups e.count_rules k, f.0)
            ((nonempty_iff l).1 (hit_nonempty l (inr f.1)))
      | inl m ↦
          rw
            (
              h,
              k,
              m,
              first_with-none exploit_groups e.count_rules k,
              first_with-none exploit_labels e.labels m,
            )
            refl
    ]
  ]

  nonempty-other : str_eq e.action (codes "ALLOW") ≡ false → nonempty (exploit_match e) ≡ false
  unfolding exploit_match
  nonempty-other h = rw h refl

  -- An exploit is reported for a request exactly when it was allowed and either a rule counted for
  -- it belongs to one of the managed groups that detect exploits or one of its labels comes from
  -- them.
  pub exploit_match_iff : (exploit_match e ≢ []) ↔ (
      (e.action ≡ codes "ALLOW")
      × (Some (Begins exploit_groups) e.count_rules ⊎ Some (Begins exploit_labels) e.labels))
  exploit_match_iff = ground (
    arith,
    nonempty-allowed,
    nonempty-other,
    nonempty_iff (exploit_match e),
    str_eq_iff e.action (codes "ALLOW"),
    hits_iff exploit_groups e.count_rules,
    hits_iff exploit_labels e.labels,
  )
