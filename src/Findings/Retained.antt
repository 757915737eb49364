-- ===== src/Findings/Retained.antt =====
-- What the detector retains of the hits that it has seen, and what it counts.
use ctaudit.Prelude.{
  ℕ, ◌+◌, ◌%◌, ◌^◌, ◌≤◌, ◌<◌, ◌≡◌, refl, ap, sym, ◌∙◌, subst, ◌&&◌, inl, inr, min, Bool, true,
  false, some, List, [], ◌∷◌, ◌++◌, ltb, leb, length, set, get_elem?, length-append, length-set,
  arith, Bool-cases,
}
use ctaudit.Findings.{Severity, rank, Finding}
use ctaudit.Findings.Detector.{Detector, cap_of, capacity, lowest_retained, replace_lowest, retain}
use ctaudit.Findings.Lowest.{
  AtLeast, lowest_retained_lem, count_from, count_from-append, AtLeast-mono, count_from-le,
  count_from-zero, count_from_all, count_from-set, count_from-lt, times, times-append, times-set,
}

-- The findings of the detector are hits: no finding, and no kind of finding, stands among them more
-- often than among the hits. They are the most severe hits: at every threshold there are as many
-- findings as the hits and the cap allow. The detector counts the others as dropped, and `lost` hits dropped before.
pub record Retains (lost : ℕ) (d : Detector) (hits : List Finding) : Type 0 where
  pub among : (p : Finding → Bool) → times p d.found ≤ times p hits
  pub best : (n : ℕ) → count_from n d.found ≡ min (capacity d) (count_from n hits)
  pub accounted : (length d.found + d.dropped) % 2 ^ 64 ≡ (length hits + lost) % 2 ^ 64
  pub cached : d.min_cached ≡ true → AtLeast (rank d.min_sev) d.found

module _ {lost : ℕ} (d : Detector) (hits : List Finding) (inv : Retains lost d hits)
    (f : Finding) where
  append-Retains :
      ltb (length d.found) (capacity d) ≡ true
      → Retains lost (record d { found = d.found ++ f ∷ []; min_cached = false }) (hits ++ f ∷ [])
  append-Retains room = record {
    among = λ p.
        omega (arith, inv.among p, times-append p d.found (f ∷ []), times-append p hits (f ∷ []));
    best = λ n. ground (
      arith,
      inv.best n,
      inv.best 0,
      count_from-zero d.found,
      count_from-zero hits,
      count_from-le n hits,
      count_from-append n d.found (f ∷ []),
      count_from-append n hits (f ∷ []),
    );
    accounted =
        omega (arith, length-append d.found (f ∷ []), length-append hits (f ∷ []), inv.accounted);
    cached = λ h. cc;
  }

  -- A hit that no retained finding is below is dropped, for good reason.
  dropped-Retains :
      (m : ℕ) (cached : Bool) (sev : Severity) (idx : ℕ)
      → (ltb (length d.found) (capacity d) ≡ false)
      → AtLeast m d.found
      → rank f.severity ≤ m
      → (cached ≡ true → AtLeast (rank sev) d.found)
      → Retains lost
          (record d {
            min_sev = sev;
            min_idx = idx;
            min_cached = cached;
            dropped = (d.dropped + 1) % 2 ^ 64;
          })
          (hits ++ f ∷ [])
  dropped-Retains m cached sev idx full all low keeps = record {
    among = λ p. omega (arith, inv.among p, times-append p hits (f ∷ []));
    best = λ n. ground (
      arith,
      inv.best n,
      inv.best 0,
      count_from-zero d.found,
      count_from-zero hits,
      count_from_all n m d.found,
      count_from-append n hits (f ∷ []),
    );
    accounted = omega (arith, length-append hits (f ∷ []), inv.accounted);
    cached = keeps;
  }

  -- A hit that takes the place of the lowest finding.
  replaced-Retains :
      (g : Finding) (i : ℕ)
      → (ltb (length d.found) (capacity d) ≡ false)
      → get_elem? d.found i ≡ some g
      → AtLeast (rank g.severity) d.found
      → rank g.severity < rank f.severity
      → Retains lost
          (record d {
            found = set d.found i f;
            dropped = (d.dropped + 1) % 2 ^ 64;
            min_cached = false;
          })
          (hits ++ f ∷ [])
  replaced-Retains g i full at all low = record {
    among = λ p. omega (arith, inv.among p, times-set p d.found i f, times-append p hits (f ∷ []));
    best = λ n. ground (
      arith,
      inv.best n,
      inv.best 0,
      count_from-zero d.found,
      count_from-zero hits,
      count_from-le n hits,
      count_from_all n (rank g.severity) d.found,
      count_from-append n hits (f ∷ []),
      count_from-set n d.found i f g at,
      count_from-lt n d.found i g at,
    );
    accounted = omega (arith, length-append hits (f ∷ []), length-set d.found i f, inv.accounted);
    cached = λ h. cc;
  }

replace_lowest-Retains :
    {lost : ℕ} (f : Finding) (found : List Finding) (d : Detector) (hits : List Finding)
    → found ≡ d.found
    → ltb (length d.found) (capacity d) ≡ false
    → 0 < capacity d
    → Retains lost d hits
    → Retains lost (replace_lowest f found d) (hits ++ f ∷ [])
unfolding replace_lowest
replace_lowest-Retains f [] d hits e full pos inv = absurd (ground (arith, ap length e))
replace_lowest-Retains f (g ∷ gs) d hits e full pos inv =
    let (at, low) = lowest_retained_lem g gs in
    let m = (lowest_retained g gs).0 in
    let all = subst (AtLeast (rank m)) e low in
    elim (Bool-cases (leb (rank f.severity) (rank m))) [
      | inl le ↦ rw le (
          dropped-Retains d hits inv f (rank m) true m (lowest_retained g gs).1 full all
            (ground arith) (λ _. all))
      | inr gt ↦ rw gt (
          replaced-Retains d hits inv f at.0 (lowest_retained g gs).1 full
            (ap (λ xs. get_elem? xs (lowest_retained g gs).1) (sym e) ∙ at.1)
            (AtLeast-mono (omega (arith, ap rank at.2)) d.found all) (ground (arith, ap rank at.2)))
    ]

cap_of_pos : (max : ℕ) → 0 < cap_of max
unfolding cap_of
cap_of_pos max = ground arith

-- `retain` keeps the invariant, whatever branch it takes.
pub retain-Retains :
    {lost : ℕ} (f : Finding) (d : Detector) (hits : List Finding)
    → Retains lost d hits
    → Retains lost (retain f d) (hits ++ f ∷ [])
unfolding retain
retain-Retains f d hits inv = elim (Bool-cases (ltb (length d.found) (capacity d))) [
  | inl room ↦ rw room (append-Retains d hits inv f room)
  | inr full ↦ elim (Bool-cases (d.min_cached && leb (rank f.severity) (rank d.min_sev))) [
    | inl cheap ↦
        let cached : d.min_cached ≡ true = ground arith in
        rw (full, cheap)
          (dropped-Retains d hits inv f (rank d.min_sev) d.min_cached d.min_sev d.min_idx full
            (inv.cached cached) (ground arith) inv.cached)
    | inr costly ↦
        rw (full, costly) (replace_lowest-Retains f d.found d hits refl full (cap_of_pos d.max) inv)
  ]
]
