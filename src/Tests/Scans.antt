-- ===== src/Tests/Scans.antt =====
-- Tests of scans, findings and the query filter.
use mathlib.Core.List.{Perm, Permᴰ}
use ctaudit.Map.Tally.{get}
use ctaudit.Engine.Schedule.{schedule_irrelevant}
use ctaudit.Prelude.{
  ◌%◌, ◌^◌, ◌++◌, ◌≡◌, ◌↔◌, refl, Bool, true, false, not, none, some, List, [], ◌∷◌, All,
  if◌then◌else◌, arith,
}
use ctaudit.Text.{Str, codes, str_eq, has_suffix, equal_fold, trim_suffix}
use ctaudit.CtEvent.{Record, service_name}
use ctaudit.Query.{match, matches_source}
use ctaudit.Query.Selects.{Selects, match_iff}
use ctaudit.Findings.{Severity, severity_comparable, Finding, sev_high, new_finding}
use ctaudit.Findings.Detector.{Detector, new_detector, merge, findings}
use ctaudit.Findings.Hits.{Holds, hits_of_all}
use ctaudit.Findings.Merge.{inspect_all, inspect_all-Holds, merge-Holds}
use ctaudit.Findings.Report.{IsReport, findings-IsReport}
use ctaudit.Findings.Rules.{default_rules}
use ctaudit.Findings.Rules.Sound.{Describes, default_rules-Describes}
use ctaudit.Engine.CloudTrail.{chosen_rules, run, max_events_of, merged, scan_shards}
use ctaudit.Engine.Listing.{Page, page, page_failed, is_skipped, list_error, list_prefixes}
use ctaudit.Engine.Listing.Complete.{Held, broken, last, more, list_prefixes-sends}
use ctaudit.Engine.Matched.{Saw, selected_of}
use ctaudit.Engine.Reported.{merged-Saw}
use ctaudit.Tests.Data.{
  root_record, login_record, plain_json, rules, wide_filter, options, fetch, took,
}

merged-Saw_example :
    Saw rules 2
      (max_events_of 3)
      (merged plain_json options (scan_shards plain_json options fetch took []))
      (selected_of wide_filter fetch took)
unfolding chosen_rules
merged-Saw_example = merged-Saw plain_json options fetch took []

abbrev two_records : List Record
two_records = root_record ∷ login_record ∷ []

abbrev worker : Detector
worker = inspect_all two_records (record (new_detector rules) { max = 2 })

abbrev hits : List Finding
hits = hits_of_all rules two_records

inspect_all-Holds_example : Holds worker hits
inspect_all-Holds_example = inspect_all-Holds rules 2 two_records

merge-Holds_example : Holds (merge worker worker) (hits ++ hits)
merge-Holds_example =
    merge-Holds worker worker hits hits (inspect_all-Holds rules 2 two_records)
      (inspect_all-Holds rules 2 two_records) refl

findings-IsReport_example : Perm (findings worker) worker.found × IsReport (findings worker)
findings-IsReport_example = findings-IsReport worker

default_rules-Describes_example : All (Describes root_record) (default_rules plain_json)
default_rules-Describes_example = default_rules-Describes plain_json root_record

abbrev key_finding : Finding
key_finding =
    new_finding (codes "access-key-created") sev_high (codes "Access key created")
      (codes "Long-lived access key created for the calling identity") root_record

match_iff_example : (match wide_filter root_record ≡ true) ↔ Selects wide_filter root_record
match_iff_example = match_iff wide_filter root_record

abbrev took_otherwise : List (List Str)
took_otherwise = ([] ∷ codes "a" ∷ []) ∷ (codes "b" ∷ codes "c" ∷ []) ∷ []

schedule_irrelevant_example :
    ((run plain_json options fetch took []).matched_records
      ≡ (run plain_json options fetch took_otherwise []).matched_records)
    × ((s : Severity)
        → get s (run plain_json options fetch took []).severity_counts % 2 ^ 64
          ≡ get s (run plain_json options fetch took_otherwise []).severity_counts % 2 ^ 64)
schedule_irrelevant_example =
    schedule_irrelevant plain_json options fetch took took_otherwise [] [] (Permᴰ.swap refl refl)

-- A store with two pages under one prefix and an error under every other.
abbrev two_pages : Str → Str → Page
two_pages p t =
    if not (str_eq p (codes "p"))
    then page_failed (codes "access denied")
    else if str_eq t []
    then page (codes "a.gz" ∷ codes "b.txt" ∷ []) (codes "next")
    else page (codes "c.gz" ∷ codes "d.gz" ∷ []) []

abbrev is_gz : Str → Bool
is_gz k = has_suffix k (codes ".gz")

abbrev is_c : Str → Bool
is_c k = str_eq k (codes "c.gz")

abbrev held : List Held
held =
    record {
      prefix = codes "p";
      pages = (codes "a.gz" ∷ codes "b.txt" ∷ []) ∷ (codes "c.gz" ∷ codes "d.gz" ∷ []) ∷ [];
      fault = none;
    }
    ∷ record { prefix = codes "q"; pages = []; fault = some (codes "access denied") }
    ∷ []

list_prefixes-sends_example :
    list_prefixes two_pages is_gz
      (some is_c)
      3
      (codes "p" ∷ codes "q" ∷ [])
      (record { sent = []; list_errs = [] })
    ≡ some (record {
      sent = codes "a.gz" ∷ codes "d.gz" ∷ [];
      list_errs = codes "list q: access denied" ∷ [];
    })
unfolding codes str_eq has_suffix is_skipped list_error
list_prefixes-sends_example =
    list_prefixes-sends two_pages is_gz (some is_c) held 3 []
      (more refl refl (last refl), (broken refl, tt)) (omega arith, (omega arith, tt)) (omega arith)

-- The suffix of a source is cut off in lower case only.
source_in_lower_case : matches_source root_record (codes "IAM.amazonaws.com" ∷ []) ≡ true
unfolding matches_source codes equal_fold trim_suffix service_name
source_in_lower_case = refl

suffix_in_capitals : matches_source root_record (codes "iam.AMAZONAWS.COM" ∷ []) ≡ false
unfolding matches_source codes equal_fold trim_suffix service_name
suffix_in_capitals = refl
