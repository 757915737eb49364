-- ===== src/Engine/Reported.antt =====
-- What Run reports: the workers of a scan and the merge stage.
use ctaudit.Prelude.{
  ℕ, ◌≡◌, refl, ap, sym, ◌∙◌, subst, Word, List, [], ◌∷◌, ◌++◌, map, append_assoc, append-nil,
  arith, Bool-cases, inl, inr,
}
use ctaudit.Text.{Str}
use ctaudit.CtEvent.{Record}
use ctaudit.Query.{Filter, match}
use ctaudit.Findings.{Rule}
use ctaudit.Findings.Detector.{new_detector, inspect}
use ctaudit.Findings.Merge.{inspect_rules-rules}
use ctaudit.Engine.{
  Fetched, got, lost, Worker, Output, new_worker, visit_all, work_fetched, work, collect, scan,
}
use ctaudit.Findings.Rules.{Unmarshal}
use ctaudit.Engine.CloudTrail.{
  Shard, Options, chosen_rules, max_events_of, capped_detector, new_shard, visit, merge_shards,
  merged, scan_shards,
}
use ctaudit.Engine.Matched.{
  records_of, selected, selected_by, selected_of, Saw, new_shard-Saw, visit-Saw, merge_shard-Saw,
}

module _ (rules : List Rule) (cap : Word) (most : ℕ) where
  visit-rules :
      (f : Filter) (r : Record) (sh : Shard)
      → (visit f most r sh).detector.rules ≡ sh.detector.rules
  unfolding visit inspect
  visit-rules f r sh = elim (Bool-cases (match f r)) [
    | inl e ↦ rw e (inspect_rules-rules sh.detector.rules r sh.detector).0
    | inr e ↦ rw e refl
  ]

  -- What holds of the shard of a worker: its rules too are those of the scan.
  abbrev Working : Shard → List Record → Type 0
  Working sh xs = (sh.detector.rules ≡ rules) × Saw rules cap most sh xs

  selected-cons :
      (f : Filter) (r : Record) (rs : List Record)
      → selected f (r ∷ []) ++ selected f rs ≡ selected f (r ∷ rs)
  unfolding selected
  selected-cons f r rs = ground arith

  visit_all-Working :
      (f : Filter) (fetch : Str → Fetched Record) (rs : List Record) (sh : Shard) (xs : List Record)
      → Working sh xs
      → Working (visit_all fetch (visit f most) rs sh) (xs ++ selected f rs)
  unfolding visit_all selected
  visit_all-Working f fetch [] sh xs h = rw append-nil h
  visit_all-Working f fetch (r ∷ rs) sh xs (same, h) =
      subst (Working (visit_all fetch (visit f most) rs (visit f most r sh)))
        (append_assoc xs (selected f (r ∷ [])) (selected f rs)
          ∙ ap (λ l. xs ++ l) (selected-cons f r rs))
        (visit_all-Working f fetch rs (visit f most r sh) (xs ++ selected f (r ∷ []))
          (visit-rules f r sh ∙ same, visit-Saw rules cap most f r sh xs same h))

  work_fetched-Working :
      (f : Filter) (fetch : Str → Fetched Record) (k : Str) (r : Fetched Record) (w : Worker Shard)
      (xs : List Record)
      → Working w.shard xs
      → Working (work_fetched fetch (visit f most) k r w).shard (xs ++ selected f (records_of r))
  unfolding work_fetched records_of selected
  work_fetched-Working f fetch k (lost e) w xs h = rw append-nil h
  work_fetched-Working f fetch k (got rs e) w xs h = visit_all-Working f fetch rs w.shard xs h

  work-Working :
      (f : Filter) (fetch : Str → Fetched Record) (ks : List Str) (w : Worker Shard)
      (xs : List Record)
      → Working w.shard xs
      → Working (work fetch (visit f most) ks w).shard (xs ++ selected_by f fetch ks)
  unfolding work selected_by
  work-Working f fetch [] w xs h = rw append-nil h
  work-Working f fetch (k ∷ ks) w xs h =
      subst
        (Working
          (work fetch (visit f most) ks (work_fetched fetch (visit f most) k (fetch k) w)).shard)
        (append_assoc xs (selected f (records_of (fetch k))) (selected_by f fetch ks))
        (work-Working f fetch ks (work_fetched fetch (visit f most) k (fetch k) w)
          (xs ++ selected f (records_of (fetch k)))
          (work_fetched-Working f fetch k (fetch k) w xs h))

  new_shard-Working : Working (new_shard rules cap) []
  unfolding new_shard capped_detector new_detector
  new_shard-Working = (refl, new_shard-Saw rules cap most)

  -- The merge stage over the shards of the workers.
  merge_workers-Saw :
      (f : Filter) (fetch : Str → Fetched Record) (took : List (List Str)) (sh : Shard)
      (xs : List Record)
      → Saw rules cap most sh xs
      → Saw rules cap most
          (merge_shards most
            (map
              (λ w. w.shard)
              (map (λ ks. work fetch (visit f most) ks (new_worker (new_shard rules cap))) took))
            sh)
          (xs ++ selected_of f fetch took)
  unfolding merge_shards selected_of new_worker
  merge_workers-Saw f fetch [] sh xs h = rw append-nil h
  merge_workers-Saw f fetch (ks ∷ took) sh xs h =
      let w = new_worker (new_shard rules cap) in
      let its = (work-Working f fetch ks w [] new_shard-Working).1 in
      subst (Saw rules cap most _)
        (append_assoc xs (selected_by f fetch ks) (selected_of f fetch took))
        (merge_workers-Saw f fetch took _ _ (merge_shard-Saw rules cap most sh _ xs _ h its))

pub collect-shards :
    {S : Type 0} (ws : List (Worker S)) (out : Output S)
    → (collect ws out).shards ≡ out.shards ++ map (λ w. w.shard) ws
unfolding collect
collect-shards [] out = sym (append-nil out.shards)
collect-shards (w ∷ ws) out =
    collect-shards ws _ ∙ append_assoc out.shards (w.shard ∷ []) (map (λ v. v.shard) ws)

-- However the keys are shared out among the workers, the merged shard of a scan reports on
-- exactly the records of the objects read that pass the filter: its detector holds hits
-- of theirs alone, each at most as often as it was raised, the most severe that fit the cap, with the
-- counts of all hits and the number dropped; its matches are the first of them up to the limit, and their number is counted.
pub merged-Saw :
    (json : Unmarshal) (opts : Options) (fetch : Str → Fetched Record) (took : List (List Str))
    (list_errs : List Str)
    → Saw
        (chosen_rules json opts)
        opts.findings_cap
        (max_events_of opts.max_events)
        (merged json opts (scan_shards json opts fetch took list_errs))
        (selected_of opts.filter fetch took)
unfolding merged scan_shards scan
merged-Saw json opts fetch took list_errs =
    let most = max_events_of opts.max_events in
    subst
      (λ shs.
        Saw (chosen_rules json opts) opts.findings_cap most
          (merge_shards most shs (new_shard (chosen_rules json opts) opts.findings_cap))
          (selected_of opts.filter fetch took))
      (sym (collect-shards _ _))
      (merge_workers-Saw (chosen_rules json opts) opts.findings_cap most opts.filter fetch took _ []
        (new_shard-Saw (chosen_rules json opts) opts.findings_cap most))
