-- ===== src/Aggregates.antt =====
-- What internal/s3rules, internal/wafrules and internal/vpcrules share: hits with their counts, the
-- cap that keeps every critical finding, and the texts of details.
pub mod Cap
pub mod Report
pub mod S3Rules
pub mod WafRules
pub mod VpcRules
pub mod Blamed
pub mod Critical
use ctaudit.Prelude.{
  ℕ, suc, Word, slt, Bool, true, false, not, ◌&&◌, ◌||◌, List, [], ◌∷◌, ◌++◌, map, if◌then◌else◌,
  eqb, leb, ltb, length, String,
}
use ctaudit.Text.{Str, codes, str_eq, str_lt}
use ctaudit.Instant.{Time, before}
use ctaudit.Sort.{sort_by}
use ctaudit.Findings.{Severity, sev_low, sev_critical, rank, sev_eq, Finding}
use ctaudit.S3Log.Select.{format_int}
use ctaudit.Stats.Counter.{Counter, top_n}

-- hit
pub record Hit : Type 0 where
  pub finding : Finding
  pub count : Word

-- findings.Finding{...} with the fields that these rules set.
unfoldable pub aggregate_finding : Str → Severity → Str → Str → Str → Time → Finding
aggregate_finding rule severity title actor detail time = record {
  rule = rule;
  severity = severity;
  title = title;
  actor = actor;
  account = [];
  region = [];
  event_id = [];
  detail = detail;
  time = time;
}

-- strings.Join(parts, sep)
unfoldable pub join_by : Str → List Str → Str
join_by sep [] = []
join_by sep (x ∷ []) = x
join_by sep (x ∷ y ∷ ys) = x ++ (sep ++ join_by sep (y ∷ ys))

-- fmt.Sprintf("%s (%d)", p.Key, p.Count)
unfoldable pub key_and_count : Str × Word → Str
unfolding codes
key_and_count (key, n) = key ++ (codes " (" ++ (format_int n ++ codes ")"))

-- The key and the count of every entry of a counter that `p` selects.
unfoldable pub hits_of_counter : (Str → Word → Bool) → (Str → Word → Hit) → Counter → List Hit
hits_of_counter p hit [] = []
hits_of_counter p hit ((k, n) ∷ c) =
    let rest = hits_of_counter p hit c in if p k n then hit k n ∷ rest else rest

-- The first four keys of the comparisons of sort.Slice, which s3rules goes on from.
unfoldable pub compares_before : (Hit → Hit → Bool) → Hit → Hit → Bool
compares_before next a b =
    if not (sev_eq a.finding.severity b.finding.severity)
    then ltb (rank b.finding.severity) (rank a.finding.severity)
    else if not (eqb a.count b.count)
    then slt b.count a.count
    else if not (str_eq a.finding.actor b.finding.actor)
    then str_lt a.finding.actor b.finding.actor
    else next a b

unfoldable pub by_rule : Hit → Hit → Bool
by_rule a b = str_lt a.finding.rule b.finding.rule

unfoldable pub by_rule_and_time : Hit → Hit → Bool
by_rule_and_time a b =
    if not (str_eq a.finding.rule b.finding.rule)
    then str_lt a.finding.rule b.finding.rule
    else if not (eqb a.finding.time b.finding.time)
    then before a.finding.time b.finding.time
    else str_lt a.finding.detail b.finding.detail

abbrev pub is_critical : Finding → Bool
is_critical f = sev_eq f.severity sev_critical

-- The findings that are returned, and how many the cap removed.
pub record Detected : Type 0 where
  pub out : List Finding
  pub dropped : ℕ

-- The last loop of Detect, with what it has so far.
unfoldable pub cap_step : ℕ → Detected → Hit → Detected
cap_step max d h =
    if leb max (length d.out) && not (is_critical h.finding)
    then record d { dropped = suc d.dropped }
    else record d { out = d.out ++ h.finding ∷ [] }

unfoldable pub cap_from : ℕ → Detected → List Hit → Detected
cap_from max d [] = d
cap_from max d (h ∷ hits) = cap_from max (cap_step max d h) hits

unfoldable pub cap_hits : ℕ → List Hit → Detected
cap_hits max hits = cap_from max (record { out = []; dropped = 0 }) hits

-- The end of Detect: the hits in order, and the cap.
unfoldable pub report : (Hit → Hit → Bool) → ℕ → List Hit → Detected
report next max hits = cap_hits max (sort_by (compares_before next) hits)

-- MaxSeverity(fs): whether there is a finding, and the highest severity.
unfoldable pub higher_of : Severity → List Finding → Severity
higher_of max [] = max
higher_of max (f ∷ fs) = higher_of (if ltb (rank max) (rank f.severity) then f.severity else max) fs

unfoldable pub max_severity : List Finding → Severity × Bool
max_severity [] = (sev_low, false)
max_severity (f ∷ fs) = (higher_of f.severity fs, true)
