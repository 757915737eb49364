-- ===== src/Findings/Hits.antt =====
-- The detector after a scan: what it holds of every hit of its rules, and after a merge.
use ctaudit.Prelude.{
  ℕ, ◌+◌, ◌%◌, ◌^◌, ◌≡◌, refl, ap, sym, ◌∙◌, subst, max, false, not, ◌||◌, none, some, List, [],
  ◌∷◌, ◌++◌, if◌then◌else◌, is_empty, arith,
}
use ctaudit.Map.{find, keys, IsDistinct}
use ctaudit.Map.Tally.{get, get-bump, bump-IsDistinct}
use ctaudit.CtEvent.{Record}
use ctaudit.Findings.{Severity, rank, sev_eq, sev_eq_iff, severity_comparable, Finding, Rule}
use ctaudit.Findings.Detector.{Detector, count, observe, retain, keep, replace_lowest, new_detector}
use ctaudit.Findings.Retained.{Retains, retain-Retains}

-- The hits of a rule set on a record, and on several records.
unfoldable pub hits_of : List Rule → Record → List Finding
hits_of [] r = []
hits_of (rule ∷ rules) r = elim (rule.check r) [
  | none ↦ hits_of rules r
  | some f ↦ f ∷ hits_of rules r
]

unfoldable pub hits_of_all : List Rule → List Record → List Finding
unfolding hits_of
hits_of_all rules [] = []
hits_of_all rules (r ∷ rs) = hits_of rules r ++ hits_of_all rules rs

-- The highest rank among the hits, and how many have a severity.
abbrev pub top_rank : List Finding → ℕ
top_rank [] = 0
top_rank (f ∷ fs) = max (rank f.severity) (top_rank fs)

abbrev pub tally : Severity → List Finding → ℕ
tally s [] = 0
tally s (f ∷ fs) = (if sev_eq f.severity s then 1 else 0) + tally s fs

pub top_rank-append : (xs ys : List Finding) → top_rank (xs ++ ys) ≡ max (top_rank xs) (top_rank ys)
top_rank-append [] ys = omega arith
top_rank-append (x ∷ xs) ys = omega (arith, top_rank-append xs ys)

pub tally-append :
    (s : Severity) (xs ys : List Finding) → tally s (xs ++ ys) ≡ tally s xs + tally s ys
tally-append s [] ys = omega arith
tally-append s (x ∷ xs) ys = omega (arith, tally-append s xs ys)

pub is_empty-append :
    (xs ys : List Finding) → not (is_empty (xs ++ ys)) ≡ (not (is_empty xs) || not (is_empty ys))
is_empty-append [] [] = refl
is_empty-append [] (y ∷ ys) = refl
is_empty-append (x ∷ xs) ys = refl

-- What the detector reports of all hits, also of those that it dropped.
pub record Counts (d : Detector) (hits : List Finding) : Type 0 where
  pub highest : rank d.max_severity ≡ top_rank hits
  pub any_seen : d.seen ≡ not (is_empty hits)
  pub per_severity : (s : Severity) → get s d.counts % 2 ^ 64 ≡ tally s hits % 2 ^ 64
  pub distinct : IsDistinct (keys d.counts)

-- The fields that `retain` does not touch.
abbrev pub Agrees : Detector → Detector → Type 0
Agrees d e =
    (e.max_severity ≡ d.max_severity)
    × (e.seen ≡ d.seen)
    × (e.counts ≡ d.counts)
    × (e.max ≡ d.max)
    × (e.rules ≡ d.rules)

replace_lowest-Agrees :
    (f : Finding) (found : List Finding) (d : Detector) → Agrees d (replace_lowest f found d)
unfolding replace_lowest
replace_lowest-Agrees f [] d = (refl, refl, refl, refl, refl)
replace_lowest-Agrees f (g ∷ gs) d = ground arith

pub retain-Agrees : (f : Finding) (d : Detector) → Agrees d (retain f d)
unfolding retain
retain-Agrees f d = ground (arith, replace_lowest-Agrees f d.found d)

pub retain-Counts :
    (f : Finding) (d : Detector) (hits : List Finding) → Counts d hits → Counts (retain f d) hits
retain-Counts f d hits c =
    let (a, b, e, _, _) = retain-Agrees f d in
    record {
      highest = ap rank a ∙ c.highest;
      any_seen = b ∙ c.any_seen;
      per_severity = λ s. ap (λ m. get s m % 2 ^ 64) e ∙ c.per_severity s;
      distinct = subst (λ m. IsDistinct (keys m)) (sym e) c.distinct;
    }

observed-Counts :
    (f : Finding) (d : Detector) (hits : List Finding)
    → Counts d hits
    → Counts (count f.severity 1 (observe f.severity d)) (hits ++ f ∷ [])
unfolding count observe
observed-Counts f d hits c = record {
  highest = ground (arith, c.highest, c.any_seen, top_rank-append hits (f ∷ []), empty_top hits);
  any_seen = ground (arith, is_empty-append hits (f ∷ []));
  per_severity = λ s. ground (
    arith,
    c.per_severity s,
    get-bump f.severity s 1 d.counts,
    tally-append s hits (f ∷ []),
    sev_eq_iff f.severity s,
  );
  distinct = bump-IsDistinct f.severity 1 d.counts c.distinct;
}
  where
    empty_top : (xs : List Finding) → not (is_empty xs) ≡ false → top_rank xs ≡ 0
    empty_top [] h = refl
    empty_top (x ∷ xs) h = cc

-- A hit is counted, and kept or dropped.
pub keep-Counts :
    (f : Finding) (d : Detector) (hits : List Finding)
    → Counts d hits
    → Counts (keep f d) (hits ++ f ∷ [])
unfolding keep
keep-Counts f d hits c = retain-Counts f _ _ (observed-Counts f d hits c)

pub keep-Retains :
    {lost : ℕ} (f : Finding) (d : Detector) (hits : List Finding)
    → Retains lost d hits
    → Retains lost (keep f d) (hits ++ f ∷ [])
unfolding keep count observe
keep-Retains f d hits v =
    retain-Retains f _ hits
      (record { among = v.among; best = v.best; accounted = v.accounted; cached = v.cached })

-- What a detector holds after it has seen the hits, and no others were lost.
pub record Holds (d : Detector) (hits : List Finding) : Type 0 where
  pub retains : Retains 0 d hits
  pub counts : Counts d hits

pub new_detector-Holds :
    (rules : List Rule) (max : ℕ) → Holds (record (new_detector rules) { max = max }) []
unfolding new_detector
new_detector-Holds rules max = record {
  retains = record {
    among = λ p. omega arith;
    best = λ n. omega arith;
    accounted = refl;
    cached = λ h. cc;
  };
  counts = record {
    highest = refl;
    any_seen = refl;
    per_severity = λ s. unfold get find in refl;
    distinct = tt;
  };
}
