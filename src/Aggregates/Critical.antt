-- ===== src/Aggregates/Critical.antt =====
-- The critical findings of the rules on aggregates, which no cap removes.
use mathlib.Core.List.{Perm}
use ctaudit.Prelude.{
  map, ap, append-nil, subst, ◌+◌, ◌≡◌, refl, ◌∙◌, Word, slt, Bool, true, false, List, [], ◌∷◌,
  ◌++◌, if◌then◌else◌, length, arith, Bool-cases, inl, inr,
}
use ctaudit.Text.{Str, codes}
use ctaudit.Findings.{Severity, sev_medium, sev_high, sev_critical, sev_eq}
use ctaudit.Stats.Counter.{Counter}
use ctaudit.Stats.S3.{S3Summary, AnonHits, AccessChange}
use ctaudit.Stats.Waf.{WafSummary, IpStats, ExploitHit}
use ctaudit.Aggregates.{
  Hit, is_critical, aggregate_finding, hits_of_counter, by_rule, by_rule_and_time,
}
use ctaudit.Aggregates.Cap.{criticals}
use ctaudit.Aggregates.Blamed.{
  blamed, blamed_hits, blamed_hits-append, blamed_hits_none, blamed-report,
}
use ctaudit.Aggregates.S3Rules.{
  S3Options, s3_with_defaults, s3_hit, anon_hits, over, named, change_hits, s3_hits, detect_s3,
}
use ctaudit.Aggregates.WafRules.{
  WafOptions, waf_hit, exploit_hits, block_hits, challenge_hits, client_hits, rate_hits,
  oversize_hits, waf_hits, detect_waf,
}

criticals-append : (xs ys : List Hit) → criticals (xs ++ ys) ≡ criticals xs + criticals ys
criticals-append [] ys = omega arith
criticals-append (x ∷ xs) ys = omega (arith, criticals-append xs ys)

criticals-hits_of_counter :
    (p : Str → Word → Bool) (hit : Str → Word → Hit) (c : Counter)
    → ((k : Str) (n : Word) → is_critical (hit k n).finding ≡ false)
    → criticals (hits_of_counter p hit c) ≡ 0
unfolding hits_of_counter
criticals-hits_of_counter p hit [] h = refl
criticals-hits_of_counter p hit ((k, n) ∷ c) h = elim (Bool-cases (p k n)) [
  | inl e ↦ rw (e, h k n) (omega (arith, criticals-hits_of_counter p hit c h))
  | inr e ↦ rw e (criticals-hits_of_counter p hit c h)
]

none_in_either : (xs ys : List Hit) → criticals xs ≡ 0 → criticals ys ≡ 0 → criticals (xs ++ ys) ≡ 0
none_in_either xs ys h k = omega (arith, criticals-append xs ys)

blamed_first :
    (xs ys : List Hit) (l : List (Str × Str))
    → blamed_hits xs ≡ l
    → criticals ys ≡ 0
    → blamed_hits (xs ++ ys) ≡ l
blamed_first xs ys l h k =
    blamed_hits-append xs ys
    ∙ (ap (λ m. blamed_hits xs ++ m) (blamed_hits_none ys k) ∙ (append-nil (blamed_hits xs) ∙ h))

module _ (gib : Word → Str) (s : S3Summary) where
  criticals-over :
      (threshold : Word) (rule : Str) (severity : Severity) (title : Str) (detail : Word → Str)
      (c : Counter)
      → sev_eq severity sev_critical ≡ false
      → criticals (over gib s threshold rule severity title detail c) ≡ 0
  unfolding over s3_hit aggregate_finding
  criticals-over threshold rule severity title detail c h =
      criticals-hits_of_counter _ _ c (λ k n. h)

  criticals-named :
      (rule title what : Str) (c : Counter) → criticals (named gib s rule title what c) ≡ 0
  unfolding named s3_hit aggregate_finding
  criticals-named rule title what c = criticals-hits_of_counter _ _ c (λ k n. refl)

  criticals-change_hits : (cs : List AccessChange) → criticals (change_hits gib s cs) ≡ 0
  unfolding change_hits s3_hit aggregate_finding
  criticals-change_hits [] = refl
  criticals-change_hits (c ∷ cs) = omega (arith, criticals-change_hits cs)

  criticals-anon_hits :
      (rule : Str) (severity : Severity) (title what : Str) (m : AnonHits)
      → criticals (anon_hits gib s rule severity title what m)
        ≡ (if sev_eq severity sev_critical then length m else 0)
  unfolding anon_hits s3_hit aggregate_finding
  criticals-anon_hits rule severity title what [] = ground arith
  criticals-anon_hits rule severity title what (h ∷ m) =
      elim (Bool-cases (sev_eq severity sev_critical)) [
        | inl e ↦
            let rest : criticals (anon_hits gib s rule severity title what m) ≡ length m =
              criticals-anon_hits rule severity title what m ∙ rw e refl in
            rw e (omega (arith, rest))
        | inr e ↦
            let rest : criticals (anon_hits gib s rule severity title what m) ≡ 0 =
              criticals-anon_hits rule severity title what m ∙ rw e refl in
            rw e (omega (arith, rest))
      ]

  blamed-anon_hits :
      (title what : Str) (m : AnonHits)
      → blamed_hits (anon_hits gib s (codes "s3-anonymous-write") sev_critical title what m)
        ≡ map (λ h. (codes "s3-anonymous-write", h.0)) m
  unfolding anon_hits s3_hit aggregate_finding blamed_hits
  blamed-anon_hits title what [] = refl
  blamed-anon_hits title what (h ∷ m) =
      ap (◌∷◌ (codes "s3-anonymous-write", h.0)) (blamed-anon_hits title what m)

  blamed-s3_hits :
      (o : S3Options)
      → blamed_hits (s3_hits gib s o) ≡ map (λ h. (codes "s3-anonymous-write", h.0)) s.anon_writes
  unfolding s3_hits
  blamed-s3_hits o = blamed_first _ _ _ (blamed-anon_hits _ _ s.anon_writes) (
      none_in_either _ _ (criticals-anon_hits _ sev_high _ _ s.anon_reads) (
        none_in_either _ _ (criticals-over o.denied_threshold _ sev_high _ _ s.denied_by_ip refl) (
          none_in_either _ _
            (criticals-over o.denied_threshold _ sev_high _ _ s.denied_by_requester refl)
            (none_in_either _ _
              (criticals-over o.delete_threshold _ sev_high _ _ s.deletes_by_principal refl)
              (none_in_either _ _ (criticals-change_hits s.access_changes) (
                none_in_either _ _
                  (criticals-over o.egress_bytes _ sev_medium _ _ s.bytes_by_requester refl)
                  (none_in_either _ _
                    (criticals-over o.egress_bytes _ sev_medium _ _ s.bytes_by_ip refl)
                    (none_in_either _ _ (criticals-named _ _ _ s.weak_tls_by) (
                      none_in_either _ _ (criticals-named _ _ _ s.plain_http_by)
                        (criticals-named _ _ _ s.sig_v2_by))))))))))

  -- Whatever the thresholds and the cap are, the critical findings of the report on S3 logs are, in
  -- some order, one of the rule `s3-anonymous-write` for each bucket on which an anonymous write or
  -- delete succeeded, with the bucket as its actor.
  pub detect_s3-critical :
      (o : S3Options)
      → Perm
          (blamed (detect_s3 gib s o).out)
          (map (λ h. (codes "s3-anonymous-write", h.0)) s.anon_writes)
  unfolding detect_s3
  detect_s3-critical o =
      let d = s3_with_defaults o in
      subst (Perm (blamed (detect_s3 gib s o).out)) (blamed-s3_hits d)
        (blamed-report by_rule_and_time d.max (s3_hits gib s d))

module _ (s : WafSummary) where
  blamed-exploit_hits :
      (m : List (Str × ExploitHit))
      → blamed_hits (exploit_hits s m) ≡ map (λ h. (codes "waf-exploit-allowed", h.0)) m
  unfolding exploit_hits waf_hit aggregate_finding blamed_hits
  blamed-exploit_hits [] = refl
  blamed-exploit_hits (h ∷ m) = ap (◌∷◌ (codes "waf-exploit-allowed", h.0)) (blamed-exploit_hits m)

  criticals-block_hits :
      (threshold : Word) (ip : Str) (st : IpStats) → criticals (block_hits s threshold ip st) ≡ 0
  unfolding block_hits waf_hit aggregate_finding
  criticals-block_hits threshold ip st = elim (Bool-cases (slt st.blocks threshold)) [
    | inl e ↦ rw e refl
    | inr e ↦ elim (Bool-cases (slt 0 st.allows)) [
      | inl k ↦ rw (e, k) refl
      | inr k ↦ rw (e, k) refl
    ]
  ]

  criticals-challenge_hits :
      (least : Word) (ip : Str) (st : IpStats) → criticals (challenge_hits s least ip st) ≡ 0
  unfolding challenge_hits waf_hit aggregate_finding
  criticals-challenge_hits least ip st = elim (Bool-cases (slt st.challenge_fails least)) [
    | inl e ↦ rw e refl
    | inr e ↦ rw e refl
  ]

  criticals-client_hits :
      (threshold least : Word) (m : List (Str × IpStats))
      → criticals (client_hits s threshold least m) ≡ 0
  unfolding client_hits
  criticals-client_hits threshold least [] = refl
  criticals-client_hits threshold least ((ip, st) ∷ m) =
      none_in_either _ _ (criticals-block_hits threshold ip st) (
        none_in_either _ _ (criticals-challenge_hits least ip st)
          (criticals-client_hits threshold least m))

  criticals-rate_hits : (m : List (Str × Counter)) → criticals (rate_hits s m) ≡ 0
  unfolding rate_hits waf_hit aggregate_finding
  criticals-rate_hits [] = refl
  criticals-rate_hits (h ∷ m) = omega (arith, criticals-rate_hits m)

  criticals-oversize_hits : criticals (oversize_hits s) ≡ 0
  unfolding oversize_hits waf_hit aggregate_finding
  criticals-oversize_hits = elim (Bool-cases (slt 0 s.oversize)) [
    | inl e ↦ rw e refl
    | inr e ↦ rw e refl
  ]

  blamed-waf_hits :
      (threshold least : Word)
      → blamed_hits (waf_hits s threshold least)
        ≡ map (λ h. (codes "waf-exploit-allowed", h.0)) s.exploits
  unfolding waf_hits waf_hit aggregate_finding
  blamed-waf_hits threshold least = blamed_first _ _ _ (blamed-exploit_hits s.exploits) (
      none_in_either _ _ (criticals-client_hits threshold least s.ips) (
        none_in_either _ _ (criticals-rate_hits s.rate_by_rule) (
          none_in_either _ _
            (criticals-hits_of_counter (λ k n. true) _ s.by_count_rule (λ k n. refl))
            criticals-oversize_hits)))

  -- Whatever the threshold and the cap are, the critical findings of the report on WAF logs are, in
  -- some order, one of the rule `waf-exploit-allowed` for each client with an allowed request that
  -- carried an exploit, with the client's address as its actor.
  pub detect_waf-critical :
      (o : WafOptions)
      → Perm
          (blamed (detect_waf s o).out)
          (map (λ h. (codes "waf-exploit-allowed", h.0)) s.exploits)
  unfolding detect_waf
  detect_waf-critical o =
      subst (Perm (blamed (detect_waf s o).out)) (blamed-waf_hits _ _)
        (blamed-report by_rule _ (waf_hits s _ _))
