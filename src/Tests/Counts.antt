-- ===== src/Tests/Counts.antt =====
-- Tests of counters, trackers and summaries.
use mathlib.Core.List.{Perm}
use ctaudit.Prelude.{
  ℕ, ◌%◌, ◌^◌, ◌≤◌, ◌≡◌, ◌↔◌, ◌+ʷ◌, refl, List, [], ◌∷◌, ◌++◌, length, min, arith,
}
use ctaudit.Text.{Str, codes}
use ctaudit.Map.{nat_comparable, str_comparable, find, put, member}
use ctaudit.Stats.Counter.{Counter, top_n, merge_capped}
use ctaudit.Stats.Counter.Ranked.{IsRanked, top_n-IsRanked}
use ctaudit.Stats.Counter.Capped.{total, total-merge_capped}
use ctaudit.Stats.Bounded
use ctaudit.Stats.Bounded.{Distinct, new_distinct, add, insert, insert_below, values}
use ctaudit.Stats.Bounded.Exact.{track, seen_values, IsExact, track-IsExact, count_reaches}
use ctaudit.Stats.Summary.{new_summary, merge_summary}
use ctaudit.Stats.Summary.Merge.{SameSummary, summarise, merge_summary-summarise}
use ctaudit.Tests.Data.{root_record, login_record}

merge_summary-summarise_example :
    SameSummary
      (merge_summary
        (summarise (login_record ∷ []) new_summary)
        (summarise (root_record ∷ []) new_summary))
      (summarise (root_record ∷ login_record ∷ []) new_summary)
merge_summary-summarise_example = merge_summary-summarise (root_record ∷ []) (login_record ∷ [])

abbrev some_counts : Counter
some_counts = (codes "a", 3) ∷ (codes "b", 5) ∷ []

total-merge_capped_example :
    total (merge_capped some_counts 1 []) % 2 ^ 64 ≡ total {K = Str} [] +ʷ total some_counts
unfolding codes
total-merge_capped_example = total-merge_capped some_counts 1 [] (refl, (refl, tt))

abbrev swapped_counts : Counter
swapped_counts = (codes "b", 5) ∷ (codes "a", 3) ∷ []

top_n-IsRanked_example :
    (rest : Counter) × Perm (top_n some_counts 1 ++ rest) some_counts
    × IsRanked (top_n some_counts 1 ++ rest)
    × (length (top_n some_counts 1) ≡ min 1 (length some_counts))
top_n-IsRanked_example =
    top_n-IsRanked some_counts 1 (omega arith) (omega arith) (omega arith, (omega arith, tt))

abbrev names : List Str
names = codes "a" ∷ codes "b" ∷ codes "a" ∷ []

abbrev ports_seen : List (ℕ × ℕ)
ports_seen = (1, 22) ∷ (1, 80) ∷ (2, 443) ∷ (1, 22) ∷ []

abbrev tracked : Distinct ℕ ℕ
tracked = track ports_seen (new_distinct 5 10)

track-IsExact_example : IsExact tracked ports_seen
track-IsExact_example = track-IsExact 5 10 ports_seen

count_reaches_example : (2 ≤ Bounded.count 1 tracked) ↔ (2 ≤ length (seen_values 1 ports_seen))
unfolding track add new_distinct find put insert_below insert member
count_reaches_example = count_reaches 5 10 ports_seen 1 2 (omega arith) refl
