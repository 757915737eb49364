-- ===== src/Engine/S3/Matches.antt =====
-- The entries that an S3 scan reports, however the keys are shared out.
use ctaudit.Prelude.{
  ℕ, Word, ◌*◌, ◌%◌, ◌^◌, ◌≡◌, refl, ap, sym, ◌∙◌, not, slt, List, [], ◌∷◌, ◌++◌, append_assoc,
  append-nil, map, if◌then◌else◌, ltb, length, take_short, arith, Bool-cases, inl, inr,
}
use ctaudit.Text.{Str}
use ctaudit.Sort.{sort_by, IsStrictWeak}
use ctaudit.Sort.Earliest.{earliest, earliest_trim_left, take_agree_right}
use ctaudit.S3Log.{S3Entry}
use ctaudit.S3Log.Select.{S3Filter, match_s3}
use ctaudit.Engine.{Fetched, got, lost, Worker, new_worker, visit_all, work_fetched, work, scan}
use ctaudit.Engine.CloudTrail.{max_events_of}
use ctaudit.Engine.Reported.{collect-shards}
use ctaudit.Engine.S3.{
  S3Scan, S3Shard, new_s3_shard, logged_before, earliest_s3, add_match, visit_s3, merge_s3_shards,
  run_s3,
}

by_log_time : IsStrictWeak logged_before (λ _. Unit)
by_log_time = record { asym = λ a b _ _ h. ground arith; weak = λ a b c _ _ _ h k. ground arith }

-- The first entries in the order of time, of equal times in the order given.
abbrev pub first_entries : ℕ → List S3Entry → List S3Entry
first_entries n = earliest logged_before n

earliest_s3_first : (l : List S3Entry) (n : ℕ) → earliest_s3 l n ≡ first_entries n l
unfolding earliest_s3 earliest
earliest_s3_first l n = elim (Bool-cases (ltb n (length (sort_by logged_before l)))) [
  | inl e ↦ rw e refl
  | inr e ↦ rw e (sym (take_short n (sort_by logged_before l) (ground arith)))
]

unfoldable pub selected_s3 : S3Filter → List S3Entry → List S3Entry
selected_s3 f [] = []
selected_s3 f (e ∷ es) = let rest = selected_s3 f es in if match_s3 f e then e ∷ rest else rest

-- The entries of the objects behind keys that pass the filter, none for an object that is lost.
unfoldable pub selected_s3_by : S3Filter → (Str → Fetched S3Entry) → List Str → List S3Entry
selected_s3_by f fetch [] = []
selected_s3_by f fetch (k ∷ ks) =
    elim (fetch k) [ lost e ↦ [] | got es e ↦ selected_s3 f es ] ++ selected_s3_by f fetch ks

-- Worker after worker.
unfoldable pub selected_s3_of : S3Filter → (Str → Fetched S3Entry) → List (List Str) → List S3Entry
selected_s3_of f fetch [] = []
selected_s3_of f fetch (ks ∷ took) = selected_s3_by f fetch ks ++ selected_s3_of f fetch took

module _ (f : S3Filter) (n : ℕ) where
  add_match_kept :
      (e : S3Entry) (l rest : List S3Entry)
      → first_entries n (add_match n e l ++ rest) ≡ first_entries n (l ++ e ∷ rest)
  unfolding add_match
  add_match_kept e l rest =
      elim (Bool-cases (not (slt (length (l ++ e ∷ [])) ((2 * n) % 2 ^ 64)))) [
        | inl t ↦
            rw (t, earliest_s3_first (l ++ e ∷ []) n)
              (earliest_trim_left logged_before by_log_time n (l ++ e ∷ []) rest
                ∙ ap (first_entries n) (append_assoc l (e ∷ []) rest))
        | inr t ↦ rw t (ap (first_entries n) (append_assoc l (e ∷ []) rest))
      ]

  visit_all_kept :
      (es : List S3Entry) (sh : S3Shard) (fetch : Str → Fetched S3Entry) (rest : List S3Entry)
      → first_entries n ((visit_all fetch (visit_s3 f n) es sh).matches ++ rest)
        ≡ first_entries n (sh.matches ++ (selected_s3 f es ++ rest))
  unfolding visit_all selected_s3 visit_s3
  visit_all_kept [] sh fetch rest = refl
  visit_all_kept (e ∷ es) sh fetch rest = elim (Bool-cases (match_s3 f e)) [
    | inl m ↦
        visit_all_kept es (visit_s3 f n e sh) fetch rest
        ∙ rw m (add_match_kept e sh.matches (selected_s3 f es ++ rest))
    | inr m ↦ visit_all_kept es (visit_s3 f n e sh) fetch rest ∙ rw m refl
  ]

  first_agree :
      (xs ys zs : List S3Entry)
      → first_entries n ys ≡ first_entries n zs
      → first_entries n (xs ++ ys) ≡ first_entries n (xs ++ zs)
  unfolding earliest
  first_agree xs ys zs e = take_agree_right logged_before n xs ys zs e

  module _ (fetch : Str → Fetched S3Entry) where
    work_kept :
        (ks : List Str) (w : Worker S3Shard) (rest : List S3Entry)
        → first_entries n ((work fetch (visit_s3 f n) ks w).shard.matches ++ rest)
          ≡ first_entries n (w.shard.matches ++ (selected_s3_by f fetch ks ++ rest))
    unfolding work selected_s3_by work_fetched
    work_kept [] w rest = refl
    work_kept (k ∷ ks) w rest =
        work_kept ks (work_fetched fetch (visit_s3 f n) k (fetch k) w) rest ∙ one (fetch k)
      where
        one :
            (x : Fetched S3Entry)
            → first_entries n (
                (work_fetched fetch (visit_s3 f n) k x w).shard.matches
                ++ (selected_s3_by f fetch ks ++ rest))
              ≡ first_entries n (
                  w.shard.matches
                  ++ (elim x [ lost e ↦ [] | got es e ↦ selected_s3 f es ]
                      ++ selected_s3_by f fetch ks
                      ++ rest))
        one (lost e) = refl
        one (got es e) =
            visit_all_kept es w.shard fetch (selected_s3_by f fetch ks ++ rest)
            ∙ ap (λ l. first_entries n (w.shard.matches ++ l))
                (sym (append_assoc (selected_s3 f es) (selected_s3_by f fetch ks) rest))

    merge_kept :
        (took : List (List Str)) (res : S3Shard)
        → first_entries n
            (merge_s3_shards
              (map
                (λ w. w.shard)
                (map (λ ks. work fetch (visit_s3 f n) ks (new_worker new_s3_shard)) took))
              res).matches
          ≡ first_entries n (res.matches ++ selected_s3_of f fetch took)
    unfolding merge_s3_shards selected_s3_of new_s3_shard new_worker
    merge_kept [] res = rw (append-nil res.matches) refl
    merge_kept (ks ∷ took) res =
        let w = new_worker new_s3_shard in
        let sent = (work fetch (visit_s3 f n) ks w).shard.matches in
        let later = selected_s3_of f fetch took in
        merge_kept took _
        ∙ (ap (first_entries n) (append_assoc res.matches sent later)
            ∙ first_agree res.matches (sent ++ later) (selected_s3_by f fetch ks ++ later)
                (work_kept ks w later))

-- The matches of an S3 scan are the first of all the entries read that pass the filter, in the
-- order of time, up to the limit, however the keys are shared out and though each worker trims its
-- own list on the way.
pub run_s3-matches :
    (gib : Word → Str) (opts : S3Scan) (fetch : Str → Fetched S3Entry) (took : List (List Str))
    (list_errs : List Str)
    → (run_s3 gib opts fetch took list_errs).matches
      ≡ first_entries (max_events_of opts.max_events) (selected_s3_of opts.filter fetch took)
unfolding run_s3 scan new_s3_shard
run_s3-matches gib opts fetch took list_errs =
    let n = max_events_of opts.max_events in
    let start : S3Shard = new_s3_shard in
    earliest_s3_first _ n
    ∙ (ap (λ shs. first_entries n (merge_s3_shards shs start).matches) (collect-shards _ _)
        ∙ merge_kept opts.filter n fetch took start)
