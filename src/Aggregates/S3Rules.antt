-- ===== src/Aggregates/S3Rules.antt =====
-- internal/s3rules/rules.go. The text of a size, which needs floats, is the parameter `gib`.
use ctaudit.Prelude.{
  ℕ, ◌^◌, ◌*◌, Word, slt, not, ◌&&◌, List, [], ◌∷◌, ◌++◌, map, if◌then◌else◌, is_empty,
}
use ctaudit.Text.{Str, codes, str_eq, nonempty}
use ctaudit.Instant.{Time, is_zero, zero_time}
use ctaudit.Findings.{Severity, sev_low, sev_medium, sev_high, sev_critical}
use ctaudit.S3Log.Select.{format_int}
use ctaudit.Stats.Counter.{Counter, top_n}
use ctaudit.Stats.S3.{S3Summary, AnonHit, AnonHits, AccessChange, s3_other}
use ctaudit.Aggregates.{
  Hit, Detected, aggregate_finding, join_by, key_and_count, hits_of_counter, by_rule_and_time,
  report,
}

pub record S3Options : Type 0 where
  pub denied_threshold : Word
  pub delete_threshold : Word
  pub egress_bytes : Word
  pub max : Word

abbrev pub default_denied_threshold : ℕ
default_denied_threshold = 100

abbrev pub default_delete_threshold : ℕ
default_delete_threshold = 1000

abbrev pub default_egress_bytes : ℕ
default_egress_bytes = 10 * 2 ^ 30

abbrev pub default_max : ℕ
default_max = 500

abbrev pub top_shown : ℕ
top_shown = 3

-- o.withDefaults()
unfoldable pub s3_with_defaults : S3Options → S3Options
s3_with_defaults o = record {
  denied_threshold =
      if slt 0 o.denied_threshold then o.denied_threshold else default_denied_threshold;
  delete_threshold =
      if slt 0 o.delete_threshold then o.delete_threshold else default_delete_threshold;
  egress_bytes = if slt 0 o.egress_bytes then o.egress_bytes else default_egress_bytes;
  max = if slt 0 o.max then o.max else default_max;
}

-- top(c)
unfoldable pub top : Counter → Str
unfolding codes
top c =
    let parts = map key_and_count (top_n c top_shown) in
    if is_empty parts then codes "-" else join_by (codes ", ") parts

module _ (gib : Word → Str) (s : S3Summary) where
  -- add(rule, sev, title, actor, detail, count, at)
  unfoldable pub s3_hit : Str → Severity → Str → Str → Str → Word → Time → Hit
  s3_hit rule severity title actor detail count time = record {
    finding =
        aggregate_finding rule severity title actor detail (if is_zero time then s.first else time);
    count = count;
  }

  -- The detail of an anonymous hit.
  unfoldable pub anon_detail : Str → AnonHit → Str
  unfolding codes
  anon_detail what h =
      format_int h.count
      ++ (what
          ++ (top h.ops ++ (codes ") from " ++ (top h.ips ++ (codes "; keys " ++ top h.keys)))))

  unfoldable pub anon_hits : Str → Severity → Str → Str → AnonHits → List Hit
  anon_hits rule severity title what [] = []
  anon_hits rule severity title what ((bucket, h) ∷ m) =
      s3_hit rule severity title bucket (anon_detail what h) h.count h.first
      ∷ anon_hits rule severity title what m

  -- The entries of a counter that reach a threshold, the other key left out.
  unfoldable pub over : Word → Str → Severity → Str → (Word → Str) → Counter → List Hit
  over threshold rule severity title detail c =
      hits_of_counter (λ k n. not (str_eq k s3_other) && not (slt n threshold))
        (λ k n. s3_hit rule severity title k (detail n) n zero_time) c

  -- The entries of a counter, the other key left out.
  unfoldable pub named : Str → Str → Str → Counter → List Hit
  unfolding codes
  named rule title what c =
      hits_of_counter (λ k n. not (str_eq k s3_other))
        (λ k n. s3_hit rule sev_low title k (format_int n ++ b' ' ∷ what) n zero_time) c

  unfoldable pub change_hits : List AccessChange → List Hit
  unfolding codes
  change_hits [] = []
  change_hits (c ∷ cs) =
      let target = if nonempty c.key then c.bucket ++ b'/' ∷ c.key else c.bucket in
      s3_hit (codes "s3-access-change") sev_medium (codes "Bucket access configuration changed")
        c.principal (c.operation ++ (codes " on " ++ (target ++ (codes " from " ++ c.remote_ip)))) 1
        c.time
      ∷ change_hits cs

  -- The hits of every rule, with the defaults filled in.
  unfoldable pub s3_hits : S3Options → List Hit
  unfolding codes
  s3_hits o =
      anon_hits (codes "s3-anonymous-write") sev_critical
        (codes "Anonymous write or delete succeeded")
        (codes " anonymous write or delete requests succeeded (") s.anon_writes
      ++ (anon_hits (codes "s3-anonymous-read") sev_high (codes "Anonymous read succeeded")
            (codes " anonymous reads succeeded (") s.anon_reads
          ++ (over o.denied_threshold (codes "s3-access-denied-burst") sev_high
                (codes "Burst of denied requests")
                (λ n. format_int n ++ codes " denied requests (403 or AccessDenied) from this IP")
                s.denied_by_ip
              ++ (over o.denied_threshold (codes "s3-access-denied-burst") sev_high
                    (codes "Burst of denied requests")
                    (λ n.
                      format_int n
                      ++ codes " denied requests (403 or AccessDenied) from this requester")
                    s.denied_by_requester
                  ++ (over o.delete_threshold (codes "s3-mass-delete") sev_high
                        (codes "Mass object deletion")
                        (λ n. format_int n ++ codes " objects deleted") s.deletes_by_principal
                      ++ (change_hits s.access_changes
                          ++ (over o.egress_bytes (codes "s3-large-egress") sev_medium
                                (codes "Large data egress")
                                (λ n. gib n ++ codes " sent to this requester") s.bytes_by_requester
                              ++ (over o.egress_bytes (codes "s3-large-egress") sev_medium
                                    (codes "Large data egress")
                                    (λ n. gib n ++ codes " sent to this IP") s.bytes_by_ip
                                  ++ (named (codes "s3-weak-tls") (codes "TLS below 1.2")
                                        (codes "requests used TLS below 1.2") s.weak_tls_by
                                      ++ (named (codes "s3-plain-http")
                                            (codes "Requests over plain HTTP")
                                            (codes "REST requests used plain HTTP") s.plain_http_by
                                          ++ named (codes "s3-sigv2")
                                              (codes "Signature Version 2 requests")
                                              (codes
                                                "requests were signed with Signature Version 2")
                                              s.sig_v2_by)))))))))

  -- Detect(s, o)
  unfoldable pub detect_s3 : S3Options → Detected
  detect_s3 o = let d = s3_with_defaults o in report by_rule_and_time d.max (s3_hits d)
