-- ===== src/Aggregates/VpcRules.antt =====
-- internal/vpcrules/rules.go. The text of a size, which needs floats, is the parameter
-- `format_bytes`; `sort_words` and `before_addr` are the orders of slices.Sort and of netip.Addr.
use ctaudit.Prelude.{
  ℕ, ◌-◌, ◌^◌, Word, slt, ltb, Bool, not, ◌||◌, Option, none, some, List, [], ◌∷◌, ◌++◌, map,
  if◌then◌else◌, length, take, drop, suc,
}
use ctaudit.Text.{Str, codes, str_eq, index_byte}
use ctaudit.Instant.{Time, is_zero, zero_time}
use ctaudit.Map.{has_key, str_comparable, nat_comparable}
use ctaudit.Map.Tally.{get}
use ctaudit.Sort.{sort_by}
use ctaudit.Findings.{Severity, sev_low, sev_medium, sev_high}
use ctaudit.FlowLog.{Net}
use ctaudit.FlowLog.Addr.{NetTexts}
use ctaudit.S3Log.Select.{format_int}
use ctaudit.Stats.Bounded.{Distinct}
use ctaudit.Stats.Bounded
use ctaudit.Stats.Counter.{Counter, top_n, other_key}
use ctaudit.Stats.Vpc.{
  VpcSummary, VpcLimits, ExposedService, default_scan_ports, default_sweep_hosts, or_default,
}
use ctaudit.Aggregates.{
  Hit, Detected, aggregate_finding, join_by, key_and_count, hits_of_counter, by_rule, report,
}

pub record VpcOptions : Type 0 where
  pub scan_ports : Word
  pub sweep_hosts : Word
  pub egress_bytes : Word
  pub max : Word

abbrev pub vpc_egress_bytes : ℕ
vpc_egress_bytes = 2 ^ 30

abbrev pub vpc_default_max : ℕ
vpc_default_max = 500

abbrev pub sample_ports : ℕ
sample_ports = 10

abbrev pub top_sources : ℕ
top_sources = 5

-- o.withDefaults()
unfoldable pub vpc_with_defaults : VpcOptions → VpcOptions
vpc_with_defaults o = record {
  scan_ports = or_default o.scan_ports default_scan_ports;
  sweep_hosts = or_default o.sweep_hosts default_sweep_hosts;
  egress_bytes = or_default o.egress_bytes vpc_egress_bytes;
  max = or_default o.max vpc_default_max;
}

-- o.Limits()
unfoldable pub limits_of : VpcOptions → VpcLimits
limits_of o =
    let d = vpc_with_defaults o in
    record { max_keys = 0; max_sources = 0; scan_ports = d.scan_ports; sweep_hosts = d.sweep_hosts }

-- The first sources of an exposed service, the other key left out.
unfoldable pub shown_sources : List (Str × Word) → List Str
shown_sources [] = []
shown_sources (p ∷ ps) =
    if str_eq p.0 other_key then shown_sources ps else key_and_count p ∷ shown_sources ps

-- strings.SplitN(key, "|", 3), where it gives three parts.
unfoldable pub three_parts : Str → Option (Str × Str × Str)
three_parts key = elim (index_byte key b'|') [
  | none ↦ none
  | some i ↦ elim (index_byte (drop (suc i) key) b'|') [
    | none ↦ none
    | some j ↦ some (take i key, take j (drop (suc i) key), drop (suc j) (drop (suc i) key))
  ]
]

module _ (net : Net) (texts : NetTexts net) (before_addr : net.Addr → net.Addr → Bool)
    (format_bytes : Word → Str) (s : VpcSummary net.Addr) where
  -- add(findings.Finding{...}, count)
  unfoldable pub vpc_hit : Str → Severity → Str → Str → Str → Word → Time → Hit
  vpc_hit rule severity title actor detail count time = record {
    finding =
        aggregate_finding rule severity title actor detail (if is_zero time then s.first else time);
    count = count;
  }

  unfoldable pub scan_hits : List net.Addr → List Hit
  unfolding codes
  scan_hits [] = []
  scan_hits (src ∷ srcs) =
      let ports = sort_by ltb (Bounded.values ⦃a = texts.comparable_addr⦄ src s.scan_ports) in
      let actor = texts.addr_string src in
      vpc_hit (codes "vpc-port-scan") sev_high (codes "Port scan from a public address") actor
        (codes "rejected connection attempts to "
          ++ (format_int (length ports)
              ++ (codes " or more distinct ports (sample: "
                  ++ (join_by (codes ", ") (map format_int (take sample_ports ports))
                      ++ (codes "); "
                          ++ (format_int (get actor s.rejects_by_src)
                              ++ codes " rejected flows"))))))
        (length ports) zero_time
      ∷ scan_hits srcs

  unfoldable pub exposed_hits : List (Str × ExposedService) → List Hit
  unfolding codes
  exposed_hits [] = []
  exposed_hits ((key, x) ∷ m) =
      let over = has_key other_key x.sources in
      let n = if over then length x.sources - 1 else length x.sources in
      vpc_hit (codes "vpc-sensitive-port-exposed") sev_high
        (codes "Sensitive port reachable from the internet") key
        (format_int x.flows
          ++ (codes " accepted flows, "
              ++ (format_bytes x.bytes
                  ++ (codes ", from "
                      ++ ((if over then codes "more than " else [])
                          ++ (format_int n
                              ++ (codes " public sources; top: "
                                  ++ join_by (codes ", ")
                                      (take top_sources (shown_sources (top_n x.sources 6))))))))))
        x.flows x.first
      ∷ exposed_hits m

  unfoldable pub sweep_hits : List net.Addr → List Hit
  unfolding codes
  sweep_hits [] = []
  sweep_hits (src ∷ srcs) =
      let n = Bounded.count ⦃a = texts.comparable_addr⦄ ⦃c = texts.comparable_addr⦄ src s.sweep in
      vpc_hit (codes "vpc-host-sweep") sev_medium (codes "Host sweep") (texts.addr_string src)
        (codes "started flows to " ++ (format_int n ++ codes " or more distinct private addresses"))
        n zero_time
      ∷ sweep_hits srcs

  unfoldable pub legacy_hits : Counter → List Hit
  unfolding codes str_eq
  legacy_hits [] = []
  legacy_hits ((key, n) ∷ c) =
      let rest = legacy_hits c in
      if str_eq key other_key then rest else elim (three_parts key) [
        | none ↦ rest
        | some p ↦
            vpc_hit (codes "vpc-legacy-protocol") sev_low (codes "Legacy protocol in use") p.0
              (format_int n
                ++ (codes " accepted flows on "
                    ++ (p.2
                        ++ b' '
                          ∷ ((if str_eq p.1 (codes "out")
                                then codes "outbound to"
                                else codes "inbound from")
                              ++ codes " public addresses"))))
              n zero_time
            ∷ rest
      ]

  -- The hits of every rule, with the defaults filled in.
  unfoldable pub vpc_hits : VpcOptions → List Hit
  unfolding codes
  vpc_hits o =
      scan_hits (Bounded.at_least ⦃a = texts.comparable_addr⦄ before_addr o.scan_ports s.scan_ports)
      ++ (exposed_hits s.exposures.services
          ++ (sweep_hits (
                Bounded.at_least ⦃a = texts.comparable_addr⦄ ⦃c = texts.comparable_addr⦄ before_addr
                  o.sweep_hosts s.sweep)
              ++ (hits_of_counter (λ k n. not (str_eq k other_key || slt n o.egress_bytes))
                    (λ k n.
                      vpc_hit (codes "vpc-large-egress") sev_medium
                        (codes "Large egress to public addresses") k
                        (codes "sent "
                          ++ (format_bytes n
                              ++ (codes
                                    " in accepted flows it started to public addresses (threshold "
                                  ++ (format_bytes o.egress_bytes ++ codes ")"))))
                        n zero_time)
                    s.egress_bytes
                  ++ legacy_hits s.legacy)))

  -- Detect(s, o)
  unfoldable pub detect_vpc : VpcOptions → Detected
  detect_vpc o = let d = vpc_with_defaults o in report by_rule d.max (vpc_hits d)
