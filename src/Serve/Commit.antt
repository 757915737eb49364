-- ===== src/Serve/Commit.antt =====
-- commit, fail and prune of cmd/ctaudit/serve_state.go.
use ctaudit.Prelude.{
  ℕ, ◌+◌, ◌-◌, ◌%◌, ◌^◌, Word, ◌+ʷ◌, Bool, true, false, not, Option, none, some, List, [], ◌∷◌,
  ◌++◌, if◌then◌else◌, eqb, length,
}
use ctaudit.Text.{Str, codes}
use ctaudit.Instant.{Time, before, minus}
use ctaudit.Map.{put, has_key, str_comparable}
use ctaudit.Map.Tally.{bump, bump_all}
use ctaudit.Findings.{Severity, severity_comparable}
use ctaudit.ElbLog.{Runtime}
use ctaudit.Serve.{
  CtTick, ElbSums, ConnSums, S3Sums, VpcSums, Outcome, ct, elb, waf, s3, vpc, Totals, ServeState,
  seen_retention, status_class,
}

-- for _, k := range readKeys { ... }
unfoldable pub see_all : Time → List Str → List (Str × Time) → List (Str × Time)
see_all now [] seen = seen
see_all now (k ∷ ks) seen = see_all now ks (if has_key k seen then seen else put k now seen)

-- for _, f := range findings { tot.severity[f.Severity]++ }
unfoldable pub count_severities : List Severity → List (Severity × Word) → List (Severity × Word)
count_severities [] m = m
count_severities (s ∷ l) m = count_severities l (bump s 1 m)

-- for status, n := range byStatus { m[statusClass(status)] += n }, and the sum of the n.
unfoldable pub add_classes : List (Str × Word) → List (Str × Word) → List (Str × Word)
add_classes [] m = m
add_classes ((status, n) ∷ l) m = add_classes l (bump (status_class status) n m)

unfoldable pub counted : List (Str × Word) → Word
counted [] = 0
counted ((status, n) ∷ l) = n +ʷ counted l

module _ (rt : Runtime) where
  abbrev add_scan : Word → Word → Word → Totals rt.Float → Totals rt.Float
  add_scan objects read matched tot = record tot {
    objects = tot.objects +ʷ objects;
    read = tot.read +ʷ read;
    matched = tot.matched +ʷ matched;
  }

  abbrev add_ct : CtTick → Totals rt.Float → Totals rt.Float
  add_ct c tot =
      let tot' = record (add_scan c.objects_scanned c.records_read c.matched_records tot) {
        severity = bump_all c.severity_counts tot.severity;
      } in
      elim c.summary [
        | none ↦ tot'
        | some sum ↦ record tot' {
          write_events = tot.write_events +ʷ sum.write_events;
          error_events = tot.error_events +ʷ sum.error_events;
        }
      ]

  abbrev add_elb_sums : Option (ElbSums rt.Float) → Totals rt.Float → Totals rt.Float
  add_elb_sums none tot = tot
  add_elb_sums (some sum) tot = record tot {
    status_class = add_classes sum.by_status tot.status_class;
    received_bytes = tot.received_bytes +ʷ sum.received_bytes;
    sent_bytes = tot.sent_bytes +ʷ sum.sent_bytes;
    latency_sum = rt.plus tot.latency_sum sum.latency_sum;
    latency_count = tot.latency_count +ʷ sum.latency_count;
  }

  abbrev add_conn_sums : Option (ConnSums rt.Float) → Totals rt.Float → Totals rt.Float
  add_conn_sums none tot = tot
  add_conn_sums (some c) tot = record tot {
    conns = tot.conns +ʷ c.total;
    conns_tls = tot.conns_tls +ʷ c.tls;
    handshake_fail = tot.handshake_fail +ʷ c.handshake_failed;
    handshake_sum = rt.plus tot.handshake_sum c.handshake_sum;
    handshake_count = tot.handshake_count +ʷ c.handshake_count;
  }

  abbrev add_s3_sums : Option S3Sums → Totals rt.Float → Totals rt.Float
  add_s3_sums none tot = tot
  add_s3_sums (some sum) tot = record tot {
    s3_by_class =
        bump (codes "other") ((sum.total + (2 ^ 64 - counted sum.by_status)) % 2 ^ 64)
          (add_classes sum.by_status tot.s3_by_class);
    s3_bytes_sent = tot.s3_bytes_sent +ʷ sum.bytes_sent;
  }

  abbrev add_vpc_sums : Option VpcSums → Totals rt.Float → Totals rt.Float
  add_vpc_sums none tot = tot
  add_vpc_sums (some sum) tot = record tot {
    vpc_by_action = bump_all sum.by_action tot.vpc_by_action;
    vpc_bytes = tot.vpc_bytes +ʷ sum.bytes;
    vpc_packets = tot.vpc_packets +ʷ sum.packets;
  }

  abbrev with_severities : List Severity → Totals rt.Float → Totals rt.Float
  with_severities l tot = record tot { severity = count_severities l tot.severity }

  -- What commit adds to the totals for the part of the tick that is set.
  unfoldable pub add_outcome : Outcome rt.Float → Totals rt.Float → Totals rt.Float
  add_outcome (ct c) tot = add_ct c tot
  add_outcome (elb e) tot = add_conn_sums e.conns (
      add_elb_sums e.summary (
        add_scan e.objects_scanned (e.records_read +ʷ e.conns_read)
          (e.matched_records +ʷ e.matched_conns) tot))
  add_outcome (waf w) tot =
      let tot' =
        with_severities w.findings
          (add_scan w.objects_scanned w.records_read w.matched_records tot) in
      elim w.by_action [
        | none ↦ tot'
        | some m ↦ record tot' { waf_by_action = bump_all m tot.waf_by_action }
      ]
  add_outcome (s3 r) tot =
      add_s3_sums r.summary (
        with_severities r.findings
          (add_scan r.objects_scanned r.records_read r.matched_records tot))
  add_outcome (vpc v) tot =
      add_vpc_sums v.summary (
        with_severities v.findings
          (add_scan v.objects_scanned v.records_read v.matched_records tot))

  unfoldable pub bump_scans : Str → Totals rt.Float → Totals rt.Float
  bump_scans result tot = record tot { scans = bump result 1 tot.scans }

  -- s.commit(now, t, readKeys, errs, dur)
  unfoldable pub commit :
      Time → Outcome rt.Float → List Str → Word → ℕ → ServeState rt.Float → ServeState rt.Float
  unfolding codes
  commit now t read_keys errs dur s =
      let tot = add_outcome t (record s.totals { errors = s.totals.errors +ʷ errs }) in
      record s {
        seen = see_all now read_keys s.seen;
        totals = bump_scans (if eqb errs 0 then codes "ok" else codes "partial") tot;
        ticks = s.ticks ++ (now, t) ∷ [];
        last_scan = now;
        last_duration = dur;
        last_success = if eqb errs 0 then now else s.last_success;
      }

  -- s.fail(now, dur)
  unfoldable pub fail : Time → ℕ → ServeState rt.Float → ServeState rt.Float
  unfolding codes
  fail now dur s = record s {
    totals = bump_scans (codes "failed") s.totals;
    last_scan = now;
    last_duration = dur;
  }

-- The two loops of prune: the keys and the ticks that stay.
unfoldable pub recent_keys : Time → List (Str × Time) → List (Str × Time)
recent_keys cutoff [] = []
recent_keys cutoff ((k, t) ∷ seen) =
    let rest = recent_keys cutoff seen in if before t cutoff then rest else (k, t) ∷ rest

unfoldable pub recent_ticks : {A : Type 0} → Time → List (Time × A) → List (Time × A)
recent_ticks cutoff [] = []
recent_ticks cutoff ((t, a) ∷ ticks) =
    let rest = recent_ticks cutoff ticks in if not (before t cutoff) then (t, a) ∷ rest else rest

-- s.prune(now): the state, and how many keys and ticks it dropped.
unfoldable pub prune : {Float : Type 0} → Time → ServeState Float → ServeState Float × ℕ × ℕ
prune now s =
    let seen = recent_keys (minus now (s.lookback + seen_retention)) s.seen in
    let ticks = recent_ticks (minus now s.lookback) s.ticks in
    (
      record s { seen = seen; ticks = ticks },
      length s.seen - length seen,
      length s.ticks - length ticks,
    )

-- The end of (*server).tick in cmd/ctaudit/serve.go: `scanned` is what the scan returned, with
-- the keys it read and the number of its errors, or `none` for its error, and `delivered` the
-- result of obs.finish.
module _ (rt : Runtime) where
  unfoldable pub settle :
      Time
      → ℕ
      → Option (Outcome rt.Float × List Str × Word)
      → Bool
      → ServeState rt.Float
      → ServeState rt.Float
  settle now dur none delivered s = fail rt now dur s
  settle now dur (some (t, ks, errs)) true s = commit rt now t ks errs dur s
  settle now dur (some (t, ks, errs)) false s = fail rt now dur s

  unfoldable pub tick :
      Time
      → ℕ
      → Option (Outcome rt.Float × List Str × Word)
      → Bool
      → ServeState rt.Float
      → ServeState rt.Float
  tick now dur scanned delivered s = (prune now (settle now dur scanned delivered s)).0
