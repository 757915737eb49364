-- ===== src/Aggregates/Blamed.antt =====
-- Which critical findings a report has: their rules and actors, whatever the cap.
use mathlib.Core.List.{Perm}
use mathlib.Core.List.Perm
use ctaudit.Prelude.{
  ℕ, zero, suc, ◌≤◌, ◌≡◌, refl, ap, sym, ◌∙◌, subst, Bool, true, false, List, [], ◌∷◌, ◌++◌, map,
  if◌then◌else◌, take, arith, Bool-cases, inl, inr,
}
use ctaudit.Text.{Str}
use ctaudit.Sort.{insert_by, sort_by}
use ctaudit.Findings.{Finding}
use ctaudit.Aggregates.{Hit, is_critical, compares_before, report}
use ctaudit.Aggregates.Cap.{criticals, IsCriticalFirst, kept}
use ctaudit.Aggregates.Report.{report-kept, critical_first, criticals-sort}

-- The rule and the actor of each critical finding.
abbrev pub blamed : List Finding → List (Str × Str)
blamed [] = []
blamed (f ∷ fs) = if is_critical f then (f.rule, f.actor) ∷ blamed fs else blamed fs

unfoldable pub blamed_hits : List Hit → List (Str × Str)
blamed_hits hits = blamed (map (λ h. h.finding) hits)

pub blamed_hits-append :
    (xs ys : List Hit) → blamed_hits (xs ++ ys) ≡ blamed_hits xs ++ blamed_hits ys
unfolding blamed_hits
blamed_hits-append [] ys = refl
blamed_hits-append (x ∷ xs) ys = elim (Bool-cases (is_critical x.finding)) [
  | inl e ↦ rw e (ap (◌∷◌ (x.finding.rule, x.finding.actor)) (blamed_hits-append xs ys))
  | inr e ↦ rw e (blamed_hits-append xs ys)
]

abbrev tick_of : Hit → ℕ
tick_of x = if is_critical x.finding then 1 else 0

pub blamed_hits_none : (hits : List Hit) → criticals hits ≡ 0 → blamed_hits hits ≡ []
unfolding blamed_hits
blamed_hits_none [] h = refl
blamed_hits_none (x ∷ hits) h = elim (Bool-cases (is_critical x.finding)) [
  | inl e ↦ absurd (omega (arith, h, (let k : tick_of x ≡ 1 = rw e refl in k)))
  | inr e ↦ rw e (blamed_hits_none hits (omega (arith, h)))
]

blamed_hits-take :
    (k : ℕ) (hits : List Hit)
    → IsCriticalFirst hits
    → criticals hits ≤ k
    → blamed_hits (take k hits) ≡ blamed_hits hits
unfolding blamed_hits
blamed_hits-take zero hits h e = sym (blamed_hits_none hits (omega (arith, e)))
blamed_hits-take (suc k) [] h e = refl
blamed_hits-take (suc k) (x ∷ hits) (first, h) e = elim (Bool-cases (is_critical x.finding)) [
  | inl c ↦
      let one : tick_of x ≡ 1 = rw c refl in
      let rest = blamed_hits-take k hits h (omega (arith, e, one)) in
      rw c (ap (◌∷◌ (x.finding.rule, x.finding.actor)) rest)
  | inr c ↦ let rest = blamed_hits-take k hits h (omega (arith, first c)) in rw c rest
]

module _ (next : Hit → Hit → Bool) where
  blamed_hits-insert :
      (x : Hit) (l : List Hit)
      → Perm (blamed_hits (insert_by (compares_before next) x l)) (blamed_hits (x ∷ l))
  unfolding insert_by blamed_hits
  blamed_hits-insert x [] = Perm.refl _
  blamed_hits-insert x (y ∷ l) = elim (Bool-cases (compares_before next y x)) [
    | inr e ↦ rw e (Perm.refl _)
    | inl e ↦
        rw e
          (above (is_critical y.finding) (is_critical x.finding) _ _ _ _ (blamed_hits-insert x l))
  ]
    where
      above :
          (b c : Bool) (m n : Str × Str) (k l : List (Str × Str))
          → Perm k (if c then n ∷ l else l)
          → Perm
              (if b then m ∷ k else k)
              (if c then n ∷ (if b then m ∷ l else l) else (if b then m ∷ l else l))
      above true true m n k l h = Perm.trans (Perm.cons m h) (Perm.swap n m l)
      above true false m n k l h = Perm.cons m h
      above false true m n k l h = h
      above false false m n k l h = h

  blamed_hits-sort :
      (l : List Hit) → Perm (blamed_hits (sort_by (compares_before next) l)) (blamed_hits l)
  unfolding sort_by blamed_hits
  blamed_hits-sort [] = Perm.refl _
  blamed_hits-sort (x ∷ l) =
      Perm.trans (blamed_hits-insert x (sort_by (compares_before next) l))
        (same (is_critical x.finding) _ (blamed_hits-sort l))
    where
      same :
          (c : Bool) (n : Str × Str) {k l : List (Str × Str)}
          → Perm k l
          → Perm (if c then n ∷ k else k) (if c then n ∷ l else l)
      same true n h = Perm.cons n h
      same false n h = h

  -- No critical hit is left out of a report, and no other one is in it.
  pub blamed-report :
      (limit : ℕ) (hits : List Hit) → Perm (blamed (report next limit hits).out) (blamed_hits hits)
  unfolding blamed_hits
  blamed-report limit hits =
      let sorted = sort_by (compares_before next) hits in
      let (out, _, _, descending) = report-kept next limit hits in
      let all =
        ap blamed out
        ∙ blamed_hits-take (kept limit hits) sorted (critical_first sorted descending)
            (omega (arith, criticals-sort next hits)) in
      subst (λ l. Perm l (blamed_hits hits)) (sym all) (blamed_hits-sort hits)
