-- ===== src/Aggregates/Report.antt =====
-- The report of the rules on aggregates: the order of hits and the cap.
use ctaudit.Prelude.{
  ℕ, ◌-◌, ◌≤◌, ◌<◌, ◌≡◌, refl, ap, ◌∙◌, max, Bool, true, false, List, [], ◌∷◌, map, length, take,
  All, All-mono, arith, Bool-cases, inl, inr,
}
use ctaudit.Sort.{insert_by, sort_by}
use ctaudit.Sort.Laws.{insert_by-All, length-sort_by}
use ctaudit.Findings.{Finding, rank}
use ctaudit.Aggregates.{Hit, is_critical, compares_before, report}
use ctaudit.Aggregates.Cap.{
  criticals, IsCriticalFirst, kept, cap_hits-kept, critical_count, critical_count-take,
}

abbrev urgency : Hit → ℕ
urgency h = rank h.finding.severity

-- The most severe first.
abbrev pub IsDescending : List Hit → Type 0
IsDescending [] = Unit
IsDescending (h ∷ hits) = All (λ g. urgency g ≤ urgency h) hits × IsDescending hits

module _ (next : Hit → Hit → Bool) where
  less_urgent : (a b : Hit) → compares_before next a b ≡ true → urgency b ≤ urgency a
  unfolding compares_before
  less_urgent a b h = ground arith

  more_urgent : (a b : Hit) → compares_before next a b ≡ false → urgency a ≤ urgency b
  unfolding compares_before
  more_urgent a b h = ground arith

  insert-IsDescending :
      (x : Hit) (l : List Hit)
      → IsDescending l
      → IsDescending (insert_by (compares_before next) x l)
  unfolding insert_by
  insert-IsDescending x [] h = (tt, tt)
  insert-IsDescending x (y ∷ l) (hy, h) = elim (Bool-cases (compares_before next y x)) [
    | inl e ↦ rw e (
      insert_by-All (compares_before next) (λ g. urgency g ≤ urgency y) x l (less_urgent y x e) hy,
      insert-IsDescending x l h,
    )
    | inr e ↦
        let above = more_urgent y x e in
        rw e ((above, All-mono (λ g k. omega (arith, above, k)) l hy), (hy, h))
  ]

  sort-IsDescending : (l : List Hit) → IsDescending (sort_by (compares_before next) l)
  unfolding sort_by
  sort-IsDescending [] = tt
  sort-IsDescending (x ∷ l) = insert-IsDescending x _ (sort-IsDescending l)

  criticals-insert :
      (x : Hit) (l : List Hit)
      → criticals (insert_by (compares_before next) x l) ≡ criticals (x ∷ l)
  unfolding insert_by
  criticals-insert x [] = refl
  criticals-insert x (y ∷ l) = elim (Bool-cases (compares_before next y x)) [
    | inl e ↦ rw e (omega (arith, criticals-insert x l))
    | inr e ↦ rw e refl
  ]

  pub criticals-sort : (l : List Hit) → criticals (sort_by (compares_before next) l) ≡ criticals l
  unfolding sort_by
  criticals-sort [] = refl
  criticals-sort (x ∷ l) =
      omega (arith, criticals-insert x (sort_by (compares_before next) l), criticals-sort l)

critical_rank : (f : Finding) → is_critical f ≡ false → rank f.severity < 3
critical_rank f h = ground arith

none_critical : (n : ℕ) (l : List Hit) → n < 3 → All (λ g. urgency g ≤ n) l → criticals l ≡ 0
none_critical n [] k h = refl
none_critical n (x ∷ l) k (hx, h) =
    let lower : is_critical x.finding ≡ false = ground arith in
    let rest = none_critical n l k h in rw lower (omega arith)

pub critical_first : (l : List Hit) → IsDescending l → IsCriticalFirst l
critical_first [] h = tt
critical_first (x ∷ l) (hx, h) =
    (λ e. none_critical (urgency x) l (critical_rank x.finding e) hx, critical_first l h)

-- A report lists the hits in order, the most severe first, up to its cap or to the last critical
-- one, whichever comes later, and counts the others as dropped; it has as many critical findings as
-- there are critical hits.
pub report-kept :
    (next : Hit → Hit → Bool) (limit : ℕ) (hits : List Hit)
    → let sorted = sort_by (compares_before next) hits in
      ((report next limit hits).out ≡ map (λ h. h.finding) (take (kept limit hits) sorted))
      × ((report next limit hits).dropped ≡ length hits - kept limit hits)
      × (critical_count (report next limit hits).out ≡ criticals hits)
      × IsDescending sorted
unfolding report
report-kept next limit hits =
    let sorted = sort_by (compares_before next) hits in
    let descending = sort-IsDescending next hits in
    let same = criticals-sort next hits in
    let k : kept limit sorted ≡ kept limit hits = ap (max limit) same in
    let all = cap_hits-kept limit sorted (critical_first sorted descending) in
    let taken =
      critical_count-take (kept limit sorted) sorted (critical_first sorted descending)
        (omega arith) in
    (
      ap (λ d. d.out) all ∙ ap (λ n. map (λ h. h.finding) (take n sorted)) k,
      ap (λ d. d.dropped) all ∙ omega (arith, k, length-sort_by (compares_before next) hits),
      ap (λ d. critical_count d.out) all ∙ (taken ∙ same),
      descending,
    )
