-- ===== src/Findings/Detector.antt =====
-- The Detector of internal/findings/rules.go.
use ctaudit.Prelude.{
  ℕ, suc, Word, ◌+ʷ◌, slt, Bool, true, false, not, ◌&&◌, ◌||◌, none, some, List, [], ◌∷◌, ◌++◌,
  if◌then◌else◌, ltb, leb, length, set,
}
use ctaudit.Instant.{before}
use ctaudit.Map.Tally.{bump}
use ctaudit.Sort.{sort_by}
use ctaudit.CtEvent.{Record}
use ctaudit.Findings.{Severity, sev_low, rank, sev_eq, severity_comparable, Finding, Rule}

-- `counts` is empty where the source's map is nil.
pub record Detector : Type 0 where
  pub rules : List Rule
  pub found : List Finding
  pub max : Word
  pub dropped : Word
  pub max_severity : Severity
  pub seen : Bool
  pub counts : List (Severity × Word)
  pub min_cached : Bool
  pub min_sev : Severity
  pub min_idx : ℕ

abbrev pub default_max_findings : ℕ
default_max_findings = 5000

-- NewDetector
unfoldable pub new_detector : List Rule → Detector
new_detector rules = record {
  rules = rules;
  found = [];
  max = 0;
  dropped = 0;
  max_severity = sev_low;
  seen = false;
  counts = [];
  min_cached = false;
  min_sev = sev_low;
  min_idx = 0;
}

-- d.cap(), of the field d.Max
unfoldable pub cap_of : Word → ℕ
cap_of max = if slt 0 max then max else default_max_findings

abbrev pub capacity : Detector → ℕ
capacity d = cap_of d.max

-- d.count(sev, n)
unfoldable pub count : Severity → Word → Detector → Detector
count sev n d = record d { counts = bump sev n d.counts }

-- d.observe(sev)
unfoldable pub observe : Severity → Detector → Detector
observe sev d = record d {
  max_severity = if not d.seen || ltb (rank d.max_severity) (rank sev) then sev else d.max_severity;
  seen = true;
}

-- The loop of d.lowestRetained(), with its `minSev` and `minIdx`.
unfoldable pub lowest_from : List Finding → ℕ → Severity → ℕ → Severity × ℕ
lowest_from [] i min_sev min_idx = (min_sev, min_idx)
lowest_from (f ∷ fs) i min_sev min_idx =
    let lower = ltb (rank f.severity) (rank min_sev) in
    lowest_from fs (suc i) (if lower then f.severity else min_sev) (if lower then i else min_idx)

-- d.lowestRetained(), for a first finding and the others: it reads found[0].
unfoldable pub lowest_retained : Finding → List Finding → Severity × ℕ
unfolding lowest_from
lowest_retained f fs = lowest_from fs 1 f.severity 0

-- d.retain(f) with the cap full, behind the cheap rejection. `found` is d.found; it is never
-- empty here, since the cap is positive.
unfoldable pub replace_lowest : Finding → List Finding → Detector → Detector
replace_lowest f [] d = d
replace_lowest f (g ∷ gs) d =
    let (min_sev, min_idx) = lowest_retained g gs in
    if leb (rank f.severity) (rank min_sev)
    then record d {
      min_sev = min_sev;
      min_idx = min_idx;
      min_cached = true;
      dropped = d.dropped +ʷ 1;
    }
    else record d { found = set d.found min_idx f; dropped = d.dropped +ʷ 1; min_cached = false }

-- d.retain(f)
unfoldable pub retain : Finding → Detector → Detector
retain f d =
    if ltb (length d.found) (capacity d)
    then record d { found = d.found ++ f ∷ []; min_cached = false }
    else if d.min_cached && leb (rank f.severity) (rank d.min_sev)
    then record d { dropped = d.dropped +ʷ 1 }
    else replace_lowest f d.found d

-- d.keep(f)
unfoldable pub keep : Finding → Detector → Detector
keep f d = retain f (count f.severity 1 (observe f.severity d))

-- d.Inspect(r), by its loop over the rules.
unfoldable pub inspect_rules : List Rule → Record → Detector → Detector
inspect_rules [] r d = d
inspect_rules (rule ∷ rules) r d =
    inspect_rules rules r (elim (rule.check r) [ none ↦ d | some f ↦ keep f d ])

unfoldable pub inspect : Record → Detector → Detector
unfolding inspect_rules
inspect r d = inspect_rules d.rules r d

-- The two loops of d.Merge(other).
unfoldable pub count_all : List (Severity × Word) → Detector → Detector
count_all [] d = d
count_all ((sev, n) ∷ m) d = count_all m (count sev n d)

unfoldable pub retain_all : List Finding → Detector → Detector
retain_all [] d = d
retain_all (f ∷ fs) d = retain_all fs (retain f d)

-- d.Merge(other), for an `other` that is not nil.
unfoldable pub merge : Detector → Detector → Detector
unfolding count_all retain_all
merge other d =
    let observed = if other.seen then observe other.max_severity d else d in
    let added = record observed { dropped = observed.dropped +ʷ other.dropped } in
    retain_all other.found (count_all other.counts added)

-- The order of d.Findings(): most severe first, then oldest first.
unfoldable pub more_urgent : Finding → Finding → Bool
more_urgent a b =
    if not (sev_eq a.severity b.severity)
    then ltb (rank b.severity) (rank a.severity)
    else before a.time b.time

-- d.Findings()
unfoldable pub findings : Detector → List Finding
findings d = sort_by more_urgent d.found
