-- ===== src/Findings/Merge.antt =====
-- Inspecting records one after another, and merging the detectors of two workers.
use ctaudit.Prelude.{
  ℕ, ◌+◌, ◌%◌, ◌^◌, ◌≡◌, refl, ap, sym, ◌∙◌, subst, inl, inr, max, Bool, true, false, not, List, [],
  ◌∷◌, ◌++◌, append_assoc, append-nil, if◌then◌else◌, length-append, is_empty, arith, Bool-cases,
  Option-cases,
}
use ctaudit.Map.{keys, IsDistinct}
use ctaudit.Map.Tally.{get, bump_all, get-bump_all, bump_all-IsDistinct}
use ctaudit.CtEvent.{Record}
use ctaudit.Findings.{Severity, severity_comparable, Finding, Rule}
use ctaudit.Findings.Detector.{
  Detector, cap_of, count, observe, retain, keep, inspect_rules, inspect, count_all, retain_all,
  merge, new_detector,
}
use ctaudit.Findings.Lowest.{count_from-append, times-append}
use ctaudit.Findings.Retained.{Retains, retain-Retains}
use ctaudit.Findings.Hits.{
  Holds, Counts, retain-Agrees, hits_of, hits_of_all, top_rank, top_rank-append, tally-append,
  is_empty-append, keep-Counts, keep-Retains, retain-Counts, new_detector-Holds,
}

pub inspect_rules-Holds :
    (rules : List Rule) (r : Record) (d : Detector) (hits : List Finding)
    → Holds d hits
    → Holds (inspect_rules rules r d) (hits ++ hits_of rules r)
unfolding inspect_rules hits_of
inspect_rules-Holds [] r d hits h = rw append-nil h
inspect_rules-Holds (rule ∷ rules) r d hits h = elim (Option-cases (rule.check r)) [
  | inl miss ↦ rw (miss, inspect_rules, hits_of) (inspect_rules-Holds rules r d hits h)
  | inr (f, hit) ↦
      let h' : Holds (keep f d) (hits ++ f ∷ []) = record {
        retains = keep-Retains f d hits h.retains;
        counts = keep-Counts f d hits h.counts;
      } in
      let all = inspect_rules-Holds rules r (keep f d) (hits ++ f ∷ []) h' in
      rw (hit, inspect_rules, hits_of)
        (subst (Holds (inspect_rules rules r (keep f d)))
          (append_assoc hits (f ∷ []) (hits_of rules r)) all)
]

-- The records that one fetch worker visits, each inspected in turn.
unfoldable pub inspect_all : List Record → Detector → Detector
inspect_all [] d = d
inspect_all (r ∷ rs) d = inspect_all rs (inspect r d)

keep-rules : (f : Finding) (d : Detector) → ((keep f d).rules ≡ d.rules) × ((keep f d).max ≡ d.max)
unfolding keep count observe
keep-rules f d = let a = retain-Agrees f (count f.severity 1 (observe f.severity d)) in (a.4, a.3)

pub inspect_rules-rules :
    (rules : List Rule) (r : Record) (d : Detector)
    → ((inspect_rules rules r d).rules ≡ d.rules) × ((inspect_rules rules r d).max ≡ d.max)
unfolding inspect_rules
inspect_rules-rules [] r d = (refl, refl)
inspect_rules-rules (rule ∷ rules) r d = elim (Option-cases (rule.check r)) [
  | inl miss ↦ rw (miss, inspect_rules) (inspect_rules-rules rules r d)
  | inr (f, hit) ↦
      let (p, q) = inspect_rules-rules rules r (keep f d) in
      let (p', q') = keep-rules f d in rw (hit, inspect_rules) (p ∙ p', q ∙ q')
]

inspect_all-from :
    (rs : List Record) (d : Detector) (hits : List Finding)
    → Holds d hits
    → Holds (inspect_all rs d) (hits ++ hits_of_all d.rules rs)
unfolding inspect_all inspect hits_of_all
inspect_all-from [] d hits h = rw append-nil h
inspect_all-from (r ∷ rs) d hits h =
    let d' = inspect_rules d.rules r d in
    let h' = inspect_rules-Holds d.rules r d hits h in
    let all = inspect_all-from rs d' (hits ++ hits_of d.rules r) h' in
    let same = (inspect_rules-rules d.rules r d).0 in
    subst (Holds (inspect_all rs d'))
      (ap (λ rules. (hits ++ hits_of d.rules r) ++ hits_of_all rules rs) same
        ∙ append_assoc hits (hits_of d.rules r) (hits_of_all d.rules rs))
      all

-- Whatever records a worker inspects, and in whatever order the rules fire, its detector holds
-- hits alone, each at most as often as it was raised, the most severe that fit its cap; its counts are those of all hits, and every hit is
-- either retained or counted as dropped.
pub inspect_all-Holds :
    (rules : List Rule) (max : ℕ) (rs : List Record)
    → Holds (inspect_all rs (record (new_detector rules) { max = max })) (hits_of_all rules rs)
unfolding new_detector
inspect_all-Holds rules max rs =
    inspect_all-from rs (record (new_detector rules) { max = max }) []
      (new_detector-Holds rules max)

count_all_lem :
    (m : List (Severity × ℕ)) (d : Detector)
    → count_all m d ≡ record d { counts = bump_all m d.counts }
unfolding count_all count bump_all
count_all_lem [] d = refl
count_all_lem ((s, n) ∷ m) d = count_all_lem m (count s n d)

retain_all-Retains :
    {lost : ℕ} (fs : List Finding) (d : Detector) (hits : List Finding)
    → Retains lost d hits
    → Retains lost (retain_all fs d) (hits ++ fs)
unfolding retain_all
retain_all-Retains [] d hits v = rw append-nil v
retain_all-Retains {lost} (f ∷ fs) d hits v =
    subst (Retains lost (retain_all fs (retain f d))) (append_assoc hits (f ∷ []) fs)
      (retain_all-Retains fs (retain f d) (hits ++ f ∷ []) (retain-Retains f d hits v))

retain_all-Counts :
    (fs : List Finding) (d : Detector) (hits : List Finding)
    → Counts d hits
    → Counts (retain_all fs d) hits
unfolding retain_all
retain_all-Counts [] d hits c = c
retain_all-Counts (f ∷ fs) d hits c =
    retain_all-Counts fs (retain f d) hits (retain-Counts f d hits c)

retain_all-max : (fs : List Finding) (d : Detector) → (retain_all fs d).max ≡ d.max
unfolding retain_all
retain_all-max [] d = refl
retain_all-max (f ∷ fs) d = retain_all-max fs (retain f d) ∙ (retain-Agrees f d).3

-- The detector just before the retained findings of the other one are replayed.
before_replay : Detector → Detector → Detector
before_replay other d =
    let observed = if other.seen then observe other.max_severity d else d in
    record observed {
      dropped = (observed.dropped + other.dropped) % 2 ^ 64;
      counts = bump_all other.counts observed.counts;
    }

merge-before_replay :
    (other d : Detector) → merge other d ≡ retain_all other.found (before_replay other d)
unfolding merge before_replay
merge-before_replay other d = ap (retain_all other.found) (count_all_lem other.counts _)

observe_same :
    (b : Bool) (sev : Severity) (d : Detector)
    → let e = if b then observe sev d else d in
      (e.found ≡ d.found)
      × (e.dropped ≡ d.dropped)
      × (e.max ≡ d.max)
      × (e.counts ≡ d.counts)
      × (e.min_cached ≡ d.min_cached)
      × (e.min_sev ≡ d.min_sev)
unfolding observe
observe_same true sev d = (refl, refl, refl, refl, refl, refl)
observe_same false sev d = (refl, refl, refl, refl, refl, refl)

before_replay-max : (other d : Detector) → (before_replay other d).max ≡ d.max
unfolding before_replay
before_replay-max other d = (observe_same other.seen other.max_severity d).2

top_of_empty : (hits : List Finding) → not (is_empty hits) ≡ false → top_rank hits ≡ 0
top_of_empty [] h = refl
top_of_empty (x ∷ hits) h = cc

module _ (d other : Detector) (mine its : List Finding) (h : Holds d mine)
    (k : Holds other its) where
  before_replay-Counts : Counts (before_replay other d) (mine ++ its)
  unfolding before_replay observe
  before_replay-Counts = record {
    highest = ground (
      arith,
      h.counts.highest,
      k.counts.highest,
      h.counts.any_seen,
      k.counts.any_seen,
      top_rank-append mine its,
      top_of_empty mine,
      top_of_empty its,
    );
    any_seen = ground (arith, h.counts.any_seen, k.counts.any_seen, is_empty-append mine its);
    per_severity = λ s.
        let same =
          ap (λ m. get s (bump_all other.counts m) % 2 ^ 64)
            (observe_same other.seen other.max_severity d).3 in
        omega (
          arith,
          same,
          get-bump_all s other.counts d.counts k.counts.distinct,
          h.counts.per_severity s,
          k.counts.per_severity s,
          tally-append s mine its,
        );
    distinct = bump_all-IsDistinct other.counts _ (
        subst (λ m. IsDistinct (keys m)) (sym (observe_same other.seen other.max_severity d).3)
          h.counts.distinct);
  }

  before_replay-Retains : Retains other.dropped (before_replay other d) mine
  unfolding before_replay observe
  before_replay-Retains = elim (Bool-cases other.seen) [
    | inl e ↦ rw e (record {
      among = h.retains.among;
      best = h.retains.best;
      accounted = omega (arith, h.retains.accounted);
      cached = h.retains.cached;
    })
    | inr e ↦ rw e (record {
      among = h.retains.among;
      best = h.retains.best;
      accounted = omega (arith, h.retains.accounted);
      cached = h.retains.cached;
    })
  ]

  -- Merging the detectors of two workers with the same cap gives a detector that holds of the hits
  -- of both what one that saw them all would hold: hits alone, each at most as often as it was
  -- raised, the most severe that fit the cap, with the counts of all hits and the number dropped.
  pub merge-Holds : other.max ≡ d.max → Holds (merge other d) (mine ++ its)
  merge-Holds same =
      let replayed =
        retain_all-Retains other.found (before_replay other d) mine before_replay-Retains in
      let cap =
        ap cap_of
          (retain_all-max other.found (before_replay other d) ∙ before_replay-max other d) in
      subst (λ m. Holds m (mine ++ its)) (sym (merge-before_replay other d))
        (record {
          retains = record {
            among = λ p. omega (
              arith,
              replayed.among p,
              k.retains.among p,
              times-append p mine other.found,
              times-append p mine its,
            );
            best = λ n. omega (
              arith,
              replayed.best n,
              cap,
              ap cap_of same,
              k.retains.best n,
              count_from-append n mine other.found,
              count_from-append n mine its,
            );
            accounted = omega (
              arith,
              replayed.accounted,
              k.retains.accounted,
              length-append mine other.found,
              length-append mine its,
            );
            cached = replayed.cached;
          };
          counts =
              retain_all-Counts other.found (before_replay other d) (mine ++ its)
                before_replay-Counts;
        })

pub merge-max : (d other : Detector) → (merge other d).max ≡ d.max
merge-max d other =
    ap (λ e. e.max) (merge-before_replay other d)
    ∙ retain_all-max other.found (before_replay other d)
    ∙ before_replay-max other d
