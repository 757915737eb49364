-- ===== src/Engine/CloudTrail.antt =====
-- Run of internal/engine/engine.go, behind its checks of the scope.
use ctaudit.Prelude.{
  ℕ, Word, Option, none, some, ◌+ʷ◌, slt, Bool, List, [], ◌∷◌, ◌++◌, if◌then◌else◌, ltb, length,
}
use ctaudit.Text.{Str}
use ctaudit.Instant.{before}
use ctaudit.Sort.{sort_by}
use ctaudit.CtEvent.{Record}
use ctaudit.Query.{Filter, match}
use ctaudit.Findings.{Severity, Finding, Rule}
use ctaudit.Findings.Detector.{Detector, new_detector, inspect, findings}
use ctaudit.Stats.Summary.{Summary, new_summary, add_record, merge_summary}
use ctaudit.Findings.Detector
use ctaudit.Findings.Rules.{Unmarshal, default_rules}
use ctaudit.Engine.{Fetched, Output, scan}

-- shard, less the sink that it emits records to
pub record Shard : Type 0 where
  pub summary : Summary
  pub detector : Detector
  pub matches : List Record
  pub matched_records : Word

-- defaultMaxEvents, where the option is not positive
unfoldable pub max_events_of : Word → ℕ
max_events_of n = if slt 0 n then n else 200

unfoldable pub capped_detector : List Rule → Word → Detector
capped_detector rules cap = record (new_detector rules) { max = cap }

unfoldable pub new_shard : List Rule → Word → Shard
new_shard rules cap = record {
  summary = new_summary;
  detector = capped_detector rules cap;
  matches = [];
  matched_records = 0;
}

-- The visit function of Run.
unfoldable pub visit : Filter → ℕ → Record → Shard → Shard
visit f max_events r sh =
    if match f r
    then record {
      summary = add_record r sh.summary;
      detector = inspect r sh.detector;
      matches = if ltb (length sh.matches) max_events then sh.matches ++ r ∷ [] else sh.matches;
      matched_records = sh.matched_records +ʷ 1;
    }
    else sh

-- The inner loop of the merge: at most `max_events` matches.
unfoldable pub take_matches : ℕ → List Record → List Record → List Record
take_matches max_events [] acc = acc
take_matches max_events (m ∷ ms) acc =
    let rest = take_matches max_events ms (acc ++ m ∷ []) in
    if ltb (length acc) max_events then rest else acc

unfoldable pub merge_shard : ℕ → Shard → Shard → Shard
merge_shard max_events other sh = record {
  summary = merge_summary other.summary sh.summary;
  detector = Detector.merge other.detector sh.detector;
  matches = take_matches max_events other.matches sh.matches;
  matched_records = sh.matched_records +ʷ other.matched_records;
}

unfoldable pub merge_shards : ℕ → List Shard → Shard → Shard
merge_shards max_events [] sh = sh
merge_shards max_events (other ∷ shards) sh =
    merge_shards max_events shards (merge_shard max_events other sh)

-- Result, less the elapsed time
pub record Result : Type 0 where
  pub summary : Summary
  pub findings : List Finding
  pub matches : List Record
  pub objects_scanned : Word
  pub records_read : Word
  pub matched_records : Word
  pub dropped_findings : Word
  pub max_severity : Severity
  pub has_findings : Bool
  pub severity_counts : List (Severity × Word)
  pub errors : List Str
  pub read_keys : List Str

-- The options of Run that are read behind its checks; `rules` is `none` where Rules is nil.
pub record Options : Type 0 where
  pub filter : Filter
  pub rules : Option (List Rule)
  pub max_events : Word
  pub findings_cap : Word

-- The rules of a run: those of its options, or the default ones where they are nil.
unfoldable pub chosen_rules : Unmarshal → Options → List Rule
chosen_rules json opts = elim opts.rules [ none ↦ default_rules json | some rules ↦ rules ]

-- The shard that the merge stage ends with.
unfoldable pub merged : Unmarshal → Options → Output Shard → Shard
merged json opts out =
    merge_shards (max_events_of opts.max_events) out.shards
      (new_shard (chosen_rules json opts) opts.findings_cap)

unfoldable pub scan_shards :
    Unmarshal → Options → (Str → Fetched Record) → List (List Str) → List Str → Output Shard
scan_shards json opts fetch took list_errs =
    scan fetch (visit opts.filter (max_events_of opts.max_events))
      (new_shard (chosen_rules json opts) opts.findings_cap) took list_errs

unfoldable pub run :
    Unmarshal → Options → (Str → Fetched Record) → List (List Str) → List Str → Result
run json opts fetch took list_errs =
    let out = scan_shards json opts fetch took list_errs in
    let sh = merged json opts out in
    record {
      summary = sh.summary;
      findings = findings sh.detector;
      matches = sort_by (λ a b. before a.event_time b.event_time) sh.matches;
      objects_scanned = out.objects_scanned;
      records_read = out.records_read;
      matched_records = sh.matched_records;
      dropped_findings = sh.detector.dropped;
      max_severity = sh.detector.max_severity;
      has_findings = sh.detector.seen;
      severity_counts = sh.detector.counts;
      errors = out.errs;
      read_keys = out.read_keys;
    }
