-- ===== src/Serve.antt =====
-- cmd/ctaudit/serve_state.go: what serve mode keeps between ticks. The mutex makes each method
-- one step of the state.
pub mod Commit
pub mod Seen
pub mod Retry
pub mod Steps
use ctaudit.Prelude.{
  ℕ, ◌+◌, ◌*◌, Word, Bool, true, false, Option, none, some, List, [], ◌∷◌, ◌++◌, if◌then◌else◌, eqb,
  leb, length, ◌&&◌, take,
}
use ctaudit.Text.{Str, codes}
use ctaudit.Instant.{Time, zero_time, hour}
use ctaudit.Map.{has_key, str_comparable}
use ctaudit.Findings.{Severity}
use ctaudit.Stats.Summary.{Summary}

-- The parts of the five engine results that a committed tick adds to the totals. An option is a
-- pointer that may be nil.
pub record CtTick : Type 0 where
  pub objects_scanned : Word
  pub records_read : Word
  pub matched_records : Word
  pub severity_counts : List (Severity × Word)
  pub summary : Option Summary

pub record ElbSums (Float : Type 0) : Type 0 where
  pub by_status : List (Str × Word)
  pub received_bytes : Word
  pub sent_bytes : Word
  pub latency_sum : Float
  pub latency_count : Word

pub record ConnSums (Float : Type 0) : Type 0 where
  pub total : Word
  pub tls : Word
  pub handshake_failed : Word
  pub handshake_sum : Float
  pub handshake_count : Word

pub record ElbTick (Float : Type 0) : Type 0 where
  pub objects_scanned : Word
  pub records_read : Word
  pub conns_read : Word
  pub matched_records : Word
  pub matched_conns : Word
  pub summary : Option (ElbSums Float)
  pub conns : Option (ConnSums Float)

-- `findings` are the severities of the findings.
pub record WafTick : Type 0 where
  pub objects_scanned : Word
  pub records_read : Word
  pub matched_records : Word
  pub findings : List Severity
  pub by_action : Option (List (Str × Word))

pub record S3Sums : Type 0 where
  pub total : Word
  pub by_status : List (Str × Word)
  pub bytes_sent : Word

pub record S3Tick : Type 0 where
  pub objects_scanned : Word
  pub records_read : Word
  pub matched_records : Word
  pub findings : List Severity
  pub summary : Option S3Sums

pub record VpcSums : Type 0 where
  pub by_action : List (Str × Word)
  pub bytes : Word
  pub packets : Word

pub record VpcTick : Type 0 where
  pub objects_scanned : Word
  pub records_read : Word
  pub matched_records : Word
  pub findings : List Severity
  pub summary : Option VpcSums

-- tickResult, of which exactly one part is set, without its time.
pub data Outcome (Float : Type 0) : Type 0 where
  ct : CtTick → Outcome Float
  elb : ElbTick Float → Outcome Float
  waf : WafTick → Outcome Float
  s3 : S3Tick → Outcome Float
  vpc : VpcTick → Outcome Float

-- serveTotals
pub record Totals (Float : Type 0) : Type 0 where
  pub scans : List (Str × Word)
  pub objects : Word
  pub read : Word
  pub matched : Word
  pub errors : Word
  pub severity : List (Severity × Word)
  pub write_events : Word
  pub error_events : Word
  pub status_class : List (Str × Word)
  pub received_bytes : Word
  pub sent_bytes : Word
  pub latency_sum : Float
  pub latency_count : Word
  pub conns : Word
  pub conns_tls : Word
  pub handshake_fail : Word
  pub handshake_sum : Float
  pub handshake_count : Word
  pub waf_by_action : List (Str × Word)
  pub s3_by_class : List (Str × Word)
  pub s3_bytes_sent : Word
  pub vpc_by_action : List (Str × Word)
  pub vpc_bytes : Word
  pub vpc_packets : Word

-- serveState, less the mutex and the fields that no method but metrics reads.
pub record ServeState (Float : Type 0) : Type 0 where
  pub lookback : ℕ
  pub seen : List (Str × Time)
  pub totals : Totals Float
  pub ticks : List (Time × Outcome Float)
  pub last_scan : Time
  pub last_success : Time
  pub last_duration : ℕ

-- seenRetention
abbrev pub seen_retention : ℕ
seen_retention = 48 * hour

-- newServeState; `zero` is the float 0.
unfoldable pub new_serve_state : {Float : Type 0} → Float → ℕ → ServeState Float
new_serve_state zero lookback = record {
  lookback = lookback;
  seen = [];
  totals = record {
    scans = [];
    objects = 0;
    read = 0;
    matched = 0;
    errors = 0;
    severity = [];
    write_events = 0;
    error_events = 0;
    status_class = [];
    received_bytes = 0;
    sent_bytes = 0;
    latency_sum = zero;
    latency_count = 0;
    conns = 0;
    conns_tls = 0;
    handshake_fail = 0;
    handshake_sum = zero;
    handshake_count = 0;
    waf_by_action = [];
    s3_by_class = [];
    s3_bytes_sent = 0;
    vpc_by_action = [];
    vpc_bytes = 0;
    vpc_packets = 0;
  };
  ticks = [];
  last_scan = zero_time;
  last_success = zero_time;
  last_duration = 0;
}

-- s.isSeen(key)
unfoldable pub is_seen : {Float : Type 0} → ServeState Float → Str → Bool
is_seen s key = has_key key s.seen

-- statusClass(status)
unfoldable pub status_class : Str → Str
unfolding codes
status_class [] = codes "other"
status_class (c ∷ status) =
    if eqb (length status) 2 && leb b'2' c && leb c b'5' then c ∷ codes "xx" else codes "other"
