-- ===== src/Findings.antt =====
-- internal/findings/rules.go: severities, findings and rules. The detector that collects the hits
-- is in Findings/Detector, the rules of DefaultRules in Findings/Rules.
pub mod Detector
pub mod Lowest
pub mod Retained
pub mod Hits
pub mod Merge
pub mod Report
pub mod Rules
use ctaudit.Prelude.{
  ℕ, Bool, true, false, ◌≡◌, refl, ◌↔◌, Option, none, some, if◌then◌else◌, ltb, eqb, arith,
}
use ctaudit.Text.{Str, codes, str_eq, to_upper, trim_space}
use ctaudit.Instant.{Time}
use ctaudit.Map.{Comparable}
use ctaudit.CtEvent.{Record, actor}

pub data Severity : Type 0 where
  sev_low sev_medium sev_high sev_critical : Severity

-- The `iota` value of a severity.
abbrev pub rank : Severity → ℕ
rank sev_low = 0
rank sev_medium = 1
rank sev_high = 2
rank sev_critical = 3

abbrev pub sev_eq : Severity → Severity → Bool
sev_eq s t = eqb (rank s) (rank t)

pub sev_eq_iff : (s t : Severity) → (sev_eq s t ≡ true) ↔ (s ≡ t)
sev_eq_iff s t = ground arith

instance abbrev pub severity_comparable : Comparable Severity
severity_comparable = record { same = sev_eq; same_iff = sev_eq_iff }

-- s.String()
unfoldable pub sev_string : Severity → Str
sev_string sev_critical = codes "CRITICAL"
sev_string sev_high = codes "HIGH"
sev_string sev_medium = codes "MEDIUM"
sev_string sev_low = codes "LOW"

-- ParseSeverity; `none` is its error.
unfoldable pub parse_severity : Str → Option Severity
parse_severity s =
    let name = to_upper (trim_space s) in
    if str_eq name (codes "LOW")
    then some sev_low
    else if str_eq name (codes "MEDIUM")
    then some sev_medium
    else if str_eq name (codes "HIGH")
    then some sev_high
    else if str_eq name (codes "CRITICAL")
    then some sev_critical
    else none

pub record Finding : Type 0 where
  pub rule : Str
  pub severity : Severity
  pub title : Str
  pub actor : Str
  pub account : Str
  pub region : Str
  pub event_id : Str
  pub detail : Str
  pub time : Time

-- A rule is its id and its check; `none` stands for the result false.
pub record Rule : Type 0 where
  pub id : Str
  pub check : Record → Option Finding

-- newFinding
unfoldable pub new_finding : Str → Severity → Str → Str → Record → Finding
new_finding id sev title detail r = record {
  rule = id;
  severity = sev;
  title = title;
  actor = actor r;
  account = r.recipient_account_id;
  region = r.aws_region;
  event_id = r.event_id;
  detail = detail;
  time = r.event_time;
}
