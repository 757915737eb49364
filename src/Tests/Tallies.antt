-- ===== src/Tests/Tallies.antt =====
-- Tests of the aggregates of the S3, WAF and VPC scans and of the rules on them.
use mathlib.Core.List.{Perm}
use ctaudit.Prelude.{◌-◌, ◌≡◌, refl, List, [], ◌∷◌, ◌++◌, map, length, take, arith}
use ctaudit.Text.{Str, codes}
use ctaudit.Sort.{sort_by}
use ctaudit.S3Log.{S3Entry}
use ctaudit.Stats.S3.{S3Summary, new_s3_summary, add_s3, merge_s3}
use ctaudit.Stats.S3.Changes.{summarise_s3, changes_of, first_changes, merge_s3-changes}
use ctaudit.Stats.S3.Bounds.{
  IsBoundedSummary, new_s3_summary-IsBoundedSummary, s3_summary-IsBoundedSummary,
}
use ctaudit.Stats.Waf.{new_waf_summary, merge_waf, WafSummary}
use ctaudit.Stats.Waf.Clients.{summarise_waf, stats_of, IsTally, merge_waf-IsTally}
use ctaudit.FlowLog.{Flow, new_entry}
use ctaudit.WafLog.{WafEntry}
use ctaudit.Stats.Vpc.{VpcLimits, new_vpc_summary, add_flow, merge_vpc}
use ctaudit.Stats.Vpc.Bounds.{IsBoundedVpc, new_vpc_summary-IsBoundedVpc, vpc_summary-IsBoundedVpc}
use ctaudit.Findings.{sev_low, sev_critical}
use ctaudit.Aggregates.{Hit, aggregate_finding, by_rule, compares_before, report}
use ctaudit.Aggregates.Cap.{kept, criticals, critical_count}
use ctaudit.Aggregates.Report.{IsDescending, report-kept}
use ctaudit.Aggregates.S3Rules.{S3Options, detect_s3}
use ctaudit.Aggregates.WafRules.{detect_waf}
use ctaudit.Aggregates.Blamed.{blamed}
use ctaudit.Aggregates.Critical.{detect_s3-critical, detect_waf-critical}
use ctaudit.Tests.Data.{text_net, text_texts, s3_change, waf_entry_of}

abbrev s3_log : List S3Entry
s3_log = s3_change 20 ∷ s3_change 10 ∷ []

merge_s3-changes_example :
    (merge_s3
      (summarise_s3 s3_log new_s3_summary)
      (summarise_s3 s3_log new_s3_summary)).access_changes
    ≡ first_changes (changes_of s3_log ++ changes_of s3_log)
merge_s3-changes_example = merge_s3-changes s3_log s3_log

s3_summary-IsBoundedSummary_example :
    IsBoundedSummary (add_s3 (s3_change 10) new_s3_summary)
    × IsBoundedSummary (merge_s3 new_s3_summary new_s3_summary)
s3_summary-IsBoundedSummary_example =
    s3_summary-IsBoundedSummary new_s3_summary new_s3_summary-IsBoundedSummary (s3_change 10)
      new_s3_summary

abbrev waf_log : List WafEntry
waf_log = waf_entry_of (codes "BLOCK") ∷ waf_entry_of (codes "ALLOW") ∷ []

merge_waf-IsTally_example : IsTally (codes "10.0.0.1") (waf_log ++ waf_log) (
    stats_of
      (codes "10.0.0.1")
      (merge_waf (summarise_waf waf_log new_waf_summary) (summarise_waf waf_log new_waf_summary)))
unfolding codes
merge_waf-IsTally_example = merge_waf-IsTally (codes "10.0.0.1") refl waf_log waf_log

abbrev limits : VpcLimits
limits = record { max_keys = 2; max_sources = 2; scan_ports = 2; sweep_hosts = 2 }

abbrev ssh : Flow Str
ssh = record (new_entry text_net) {
  action = codes "ACCEPT";
  protocol = 6;
  src_port = 50000;
  dst_port = 22;
  bytes = 100;
  start = 5;
}

vpc_summary-IsBoundedVpc_example :
    IsBoundedVpc text_net text_texts (add_flow text_net text_texts ssh (new_vpc_summary limits))
    × IsBoundedVpc text_net text_texts
        (merge_vpc text_net text_texts (new_vpc_summary limits) (new_vpc_summary limits))
vpc_summary-IsBoundedVpc_example =
    vpc_summary-IsBoundedVpc text_net text_texts (new_vpc_summary limits)
      (new_vpc_summary-IsBoundedVpc text_net text_texts limits (omega arith)) ssh
      (new_vpc_summary limits)

abbrev some_hits : List Hit
some_hits =
    record { finding = aggregate_finding (codes "r") sev_low [] (codes "a") [] 1; count = 5 }
    ∷ record { finding = aggregate_finding (codes "s") sev_critical [] (codes "b") [] 2; count = 1 }
    ∷ []

report-kept_example :
    let sorted = sort_by (compares_before by_rule) some_hits in
    ((report by_rule 1 some_hits).out ≡ map (λ h. h.finding) (take (kept 1 some_hits) sorted))
    × ((report by_rule 1 some_hits).dropped ≡ length some_hits - kept 1 some_hits)
    × (critical_count (report by_rule 1 some_hits).out ≡ criticals some_hits)
    × IsDescending sorted
report-kept_example = report-kept by_rule 1 some_hits

abbrev s3_options : S3Options
s3_options = record { denied_threshold = 0; delete_threshold = 0; egress_bytes = 0; max = 1 }

abbrev s3_summary : S3Summary
s3_summary =
    summarise_s3
      (record (s3_change 10) { requester = []; operation = codes "REST.PUT.OBJECT" } ∷ s3_log)
      new_s3_summary

detect_s3-critical_example :
    Perm
      (blamed (detect_s3 (λ n. []) s3_summary s3_options).out)
      (map (λ h. (codes "s3-anonymous-write", h.0)) s3_summary.anon_writes)
detect_s3-critical_example = detect_s3-critical (λ n. []) s3_summary s3_options

abbrev waf_summary : WafSummary
waf_summary =
    summarise_waf
      (record (waf_entry_of (codes "ALLOW")) {
        labels = codes "awswaf:managed:aws:sql-database:SQLi_QueryArguments" ∷ [];
      }
        ∷ waf_log)
      new_waf_summary

detect_waf-critical_example :
    Perm
      (blamed (detect_waf waf_summary (record { block_threshold = 0; max = 1 })).out)
      (map (λ h. (codes "waf-exploit-allowed", h.0)) waf_summary.exploits)
detect_waf-critical_example =
    detect_waf-critical waf_summary (record { block_threshold = 0; max = 1 })
