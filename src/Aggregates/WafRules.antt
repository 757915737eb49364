-- ===== src/Aggregates/WafRules.antt =====
-- internal/wafrules/rules.go
use ctaudit.Prelude.{ℕ, ◌/◌, Word, ◌+ʷ◌, slt, true, List, [], ◌∷◌, ◌++◌, map, if◌then◌else◌}
use ctaudit.Text.{Str, codes}
use ctaudit.Instant.{Time}
use ctaudit.Findings.{Severity, sev_low, sev_medium, sev_high, sev_critical}
use ctaudit.S3Log.Select.{format_int}
use ctaudit.Stats.Counter.{Counter, top_n}
use ctaudit.Stats.Waf.{WafSummary, IpStats, ExploitHit}
use ctaudit.Aggregates.{
  Hit, Detected, aggregate_finding, join_by, key_and_count, hits_of_counter, by_rule, report,
}

pub record WafOptions : Type 0 where
  pub block_threshold : Word
  pub max : Word

abbrev pub default_block_threshold : ℕ
default_block_threshold = 100

abbrev pub waf_default_max : ℕ
waf_default_max = 500

abbrev pub rate_top_ips : ℕ
rate_top_ips = 5

-- The sum of all counts, in 64 bits.
unfoldable pub sum_of : Counter → Word
sum_of [] = 0
sum_of ((k, n) ∷ c) = sum_of c +ʷ n

module _ (s : WafSummary) where
  -- add(rule, sev, title, actor, detail, count, at)
  unfoldable pub waf_hit : Str → Severity → Str → Str → Str → Word → Time → Hit
  waf_hit rule severity title actor detail count time = record {
    finding = aggregate_finding rule severity title actor detail time;
    count = count;
  }

  unfoldable pub exploit_hits : List (Str × ExploitHit) → List Hit
  unfolding codes
  exploit_hits [] = []
  exploit_hits ((ip, h) ∷ m) =
      waf_hit (codes "waf-exploit-allowed") sev_critical (codes "Exploit payload allowed") ip
        (format_int h.count
          ++ (codes " allowed requests matched COUNT-mode exploit rules ("
              ++ (join_by (codes ", ") (map (λ p. p.0) (top_n h.matches 3))
                  ++ (codes "); first at " ++ h.uri))))
        h.count h.first
      ∷ exploit_hits m

  -- The hit of a client that was blocked often, if any.
  unfoldable pub block_hits : Word → Str → IpStats → List Hit
  unfolding codes
  block_hits threshold ip st =
      if slt st.blocks threshold
      then []
      else if slt 0 st.allows
      then waf_hit (codes "waf-attacker-allowed") sev_high (codes "Blocked client also allowed") ip
          (format_int st.blocks
            ++ (codes " blocked and " ++ (format_int st.allows ++ codes " allowed requests")))
          st.blocks s.first
        ∷ []
      else waf_hit (codes "waf-persistent-blocked-ip") sev_medium
          (codes "Persistent blocked client") ip (format_int st.blocks ++ codes " blocked requests")
          st.blocks s.first
        ∷ []

  unfoldable pub challenge_hits : Word → Str → IpStats → List Hit
  unfolding codes
  challenge_hits least ip st =
      if slt st.challenge_fails least
      then []
      else waf_hit (codes "waf-challenge-failures") sev_low
          (codes "Repeated CAPTCHA or challenge failures") ip
          (format_int st.challenge_fails ++ codes " failed CAPTCHA or challenge responses")
          st.challenge_fails s.first
        ∷ []

  unfoldable pub client_hits : Word → Word → List (Str × IpStats) → List Hit
  client_hits threshold least [] = []
  client_hits threshold least ((ip, st) ∷ m) =
      block_hits threshold ip st ++ (challenge_hits least ip st ++ client_hits threshold least m)

  unfoldable pub rate_hits : List (Str × Counter) → List Hit
  unfolding codes
  rate_hits [] = []
  rate_hits ((rule, ips) ∷ m) =
      waf_hit (codes "waf-rate-limited") sev_high (codes "Rate limit triggered") rule
        (format_int (sum_of ips)
          ++ (codes " requests limited; top clients: "
              ++ join_by (codes ", ") (map key_and_count (top_n ips rate_top_ips))))
        (sum_of ips) s.first
      ∷ rate_hits m

  unfoldable pub oversize_hits : List Hit
  unfolding codes
  oversize_hits =
      if slt 0 s.oversize
      then waf_hit (codes "waf-oversize") sev_medium
          (codes "Request fields over the inspection limit") []
          (format_int s.oversize
            ++ codes " requests had a body, headers, or cookies larger than WAF inspects")
          s.oversize s.first
        ∷ []
      else []

  -- The hits of every rule.
  unfoldable pub waf_hits : Word → Word → List Hit
  unfolding codes
  waf_hits threshold least =
      exploit_hits s.exploits
      ++ (client_hits threshold least s.ips
          ++ (rate_hits s.rate_by_rule
              ++ (hits_of_counter (λ k n. true)
                    (λ k n.
                      waf_hit (codes "waf-count-rule") sev_medium (codes "COUNT rule would block") k
                        (format_int n ++ codes " requests matched this rule in COUNT mode") n
                        s.first)
                    s.by_count_rule
                  ++ oversize_hits)))

  -- Detect(s, o)
  unfoldable pub detect_waf : WafOptions → Detected
  detect_waf o =
      let threshold : Word =
        if slt 0 o.block_threshold then o.block_threshold else default_block_threshold in
      let max : Word = if slt 0 o.max then o.max else waf_default_max in
      let tenth : Word = threshold / 10 in
      let least : Word = if slt tenth 1 then 1 else tenth in
      report by_rule max (waf_hits threshold least)
