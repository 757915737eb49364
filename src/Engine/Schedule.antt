-- ===== src/Engine/Schedule.antt =====
-- The counts of a scan do not depend on which worker takes which key, or in what order.
use mathlib.Core.List.{Permᴰ}
use ctaudit.Prelude.{
  ℕ, ◌+◌, ◌%◌, ◌^◌, ◌≡◌, refl, ap, sym, ◌∙◌, List, [], ◌∷◌, ◌++◌, length, length-append,
  append_assoc, arith,
}
use ctaudit.Text.{Str}
use ctaudit.Map.Tally.{get}
use ctaudit.CtEvent.{Record}
use ctaudit.Query.{Filter}
use ctaudit.Findings.{Severity, severity_comparable, Rule}
use ctaudit.Findings.Hits.{hits_of_all, tally, tally-append}
use ctaudit.Engine.{Fetched}
use ctaudit.Findings.Rules.{Unmarshal}
use ctaudit.Engine.CloudTrail.{Options, chosen_rules, run}
use ctaudit.Engine.Matched.{records_of, selected, selected_by, selected_of, hits_of_all-append}
use ctaudit.Engine.Reported.{merged-Saw}

-- All keys that the workers took.
abbrev pub all_taken : List (List Str) → List Str
all_taken [] = []
all_taken (ks ∷ took) = ks ++ all_taken took

sum_of : (Str → ℕ) → List Str → ℕ
sum_of g [] = 0
sum_of g (k ∷ ks) = g k + sum_of g ks

sum_of_perm : (g : Str → ℕ) {ks js : List Str} → Permᴰ ks js → sum_of g ks ≡ sum_of g js
unfolding sum_of
sum_of_perm g Permᴰ.nil = refl
sum_of_perm g (Permᴰ.cons e p) = omega (arith, ap g e, sum_of_perm g p)
sum_of_perm g (Permᴰ.swap e e') = omega (arith, ap g e, ap g e')
sum_of_perm g (Permᴰ.trans p q) = sum_of_perm g p ∙ sum_of_perm g q

module _ (f : Filter) (fetch : Str → Fetched Record) where
  selected_by-append :
      (ks js : List Str)
      → selected_by f fetch (ks ++ js) ≡ selected_by f fetch ks ++ selected_by f fetch js
  unfolding selected_by
  selected_by-append [] js = refl
  selected_by-append (k ∷ ks) js =
      let one = selected f (records_of (fetch k)) in
      ap (λ l. one ++ l) (selected_by-append ks js)
      ∙ sym (append_assoc one (selected_by f fetch ks) (selected_by f fetch js))

  selected_of-all_taken :
      (took : List (List Str)) → selected_of f fetch took ≡ selected_by f fetch (all_taken took)
  unfolding selected_of selected_by
  selected_of-all_taken [] = refl
  selected_of-all_taken (ks ∷ took) =
      ap (λ l. selected_by f fetch ks ++ l) (selected_of-all_taken took)
      ∙ sym (selected_by-append ks (all_taken took))

  -- A measure of records that adds up over lists.
  module _ (measure : List Record → ℕ) (none_measured : measure [] ≡ 0)
      (adds_up : (xs ys : List Record) → measure (xs ++ ys) ≡ measure xs + measure ys) where
    measure_lem :
        (ks : List Str)
        → measure (selected_by f fetch ks)
          ≡ sum_of (λ k. measure (selected f (records_of (fetch k)))) ks
    unfolding sum_of selected_by
    measure_lem [] = none_measured
    measure_lem (k ∷ ks) = omega (
      arith,
      adds_up (selected f (records_of (fetch k))) (selected_by f fetch ks),
      measure_lem ks,
    )

    measure_of_perm :
        (took took' : List (List Str))
        → Permᴰ (all_taken took) (all_taken took')
        → measure (selected_of f fetch took) ≡ measure (selected_of f fetch took')
    measure_of_perm took took' p =
        ap measure (selected_of-all_taken took)
        ∙ measure_lem (all_taken took)
        ∙ sum_of_perm _ p
        ∙ sym (ap measure (selected_of-all_taken took') ∙ measure_lem (all_taken took'))

tally_nothing : (rules : List Rule) (s : Severity) → tally s (hits_of_all rules []) ≡ 0
unfolding hits_of_all
tally_nothing rules s = refl

-- Two schedules that hand out the same keys give the same number of matches and the same number
-- of hits for each severity.
pub schedule_irrelevant :
    (json : Unmarshal) (opts : Options) (fetch : Str → Fetched Record)
    (took took' : List (List Str)) (list_errs list_errs' : List Str)
    → Permᴰ (all_taken took) (all_taken took')
    → ((run json opts fetch took list_errs).matched_records
        ≡ (run json opts fetch took' list_errs').matched_records)
      × ((s : Severity)
          → get s (run json opts fetch took list_errs).severity_counts % 2 ^ 64
            ≡ get s (run json opts fetch took' list_errs').severity_counts % 2 ^ 64)
unfolding run
schedule_irrelevant json opts fetch took took' list_errs list_errs' p =
    let a = merged-Saw json opts fetch took list_errs in
    let b = merged-Saw json opts fetch took' list_errs' in
    (
      omega (
        arith,
        a.matched,
        b.matched,
        measure_of_perm opts.filter fetch length refl length-append took took' p,
      ),
      λ s. omega (
        arith,
        a.detector.counts.per_severity s,
        b.detector.counts.per_severity s,
        measure_of_perm opts.filter fetch (λ xs. tally s (hits_of_all (chosen_rules json opts) xs))
            (tally_nothing (chosen_rules json opts) s)
            (λ xs ys.
              ap (tally s) (hits_of_all-append (chosen_rules json opts) xs ys) ∙ tally-append s _ _)
            took took' p,
      ),
    )
