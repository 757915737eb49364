-- ===== src/Tests/Access.antt =====
-- Tests of the S3 access logs and the WAF logs.
use ctaudit.Prelude.{
  ◌*◌, ◌≡◌, ◌≢◌, ◌↔◌, ◌⊎◌, refl, true, false, none, List, [], ◌∷◌, ◌++◌, map, length, take,
  if◌then◌else◌, Some,
}
use ctaudit.Text.{Str, codes, str_eq, has_prefix, cut, index_byte}
use ctaudit.LogLines.{ok, refused, decode_lines}
use ctaudit.LogLines.Accounts.{outcomes, accepted, faults, head?, decode_lines-accounts_for}
use ctaudit.S3Log.{S3Entry, unterminated_bracket, unterminated_quote}
use ctaudit.S3Log.Tokens.{s3_fields, s3_read, s3_step}
use ctaudit.S3Log.Tokens.RoundTrip.{
  Field, plain, in_brackets, in_quotes, value, write_all, s3_fields-write_all,
  s3_fields_unterminated,
}
use ctaudit.S3Log.Parse.{split_request, s3_parse, s3_parse_fields, named, s3_get, s3_entry}
use ctaudit.S3Log.Accepts.{IsEntryOf, s3_parse_iff}
use ctaudit.S3Log.Clean.{has_query, is_query_part, s3_parse_clean, s3_parse_request}
use ctaudit.S3Log.Select.{S3Filter, match_s3}
use ctaudit.S3Log.Selects.{SelectsS3, match_s3_iff}
use ctaudit.WafLog.{WafEntry, exploit_match, exploit_groups, exploit_labels}
use ctaudit.WafLog.Parse.{rules_of, from_group}
use ctaudit.WafLog.Rules.{blame, reported, last_ending, rules_of-rule}
use ctaudit.WafLog.Counted.{NoRepeat, IsNamed, counted_names, rules_of-counted}
use ctaudit.WafLog.Exploit.{Begins, exploit_match_iff}
use ctaudit.WafLog.Select.{WafFilter, match_waf}
use ctaudit.WafLog.Selects.{SelectsWaf, match_waf_iff}
use ctaudit.Engine.{Fetched, got}
use ctaudit.Engine.S3.{S3Scan, run_s3}
use ctaudit.Engine.CloudTrail.{max_events_of}
use ctaudit.Engine.S3.Matches.{first_entries, selected_s3_of, run_s3-matches}
use ctaudit.Tests.Data.{s3_change, text_clock, waf_record, waf_entry_of}

abbrev written : List Field
written =
    plain (codes "owner")
    ∷ plain (codes "bucket")
    ∷ in_brackets (codes "06/Feb/2019:00:00:38 +0000")
    ∷ plain (codes "192.0.2.3")
    ∷ plain (codes "-")
    ∷ plain (codes "3E57427F3EXAMPLE")
    ∷ plain (codes "REST.GET.OBJECT")
    ∷ plain (codes "a/key")
    ∷ in_quotes (codes "GET /a/key?X-Amz-Signature=secret HTTP/1.1")
    ∷ plain (codes "200")
    ∷ in_quotes (codes "an \"agent\"")
    ∷ []

s3_fields-write_all_example : s3_fields (write_all written) ≡ ok (map value written)
unfolding codes
s3_fields-write_all_example =
    s3_fields-write_all written
      (refl, (refl, (refl, (refl, (refl, (refl, (refl, (refl, (refl, (refl, (refl, tt)))))))))))

s3_fields_unterminated_example :
    (s3_fields (write_all (plain (codes "a") ∷ []) ++ b'[' ∷ codes "06/Feb")
      ≡ refused unterminated_bracket)
    × (s3_fields (write_all (plain (codes "a") ∷ []) ++ b'"' ∷ codes "GET /\\\"\\")
        ≡ refused unterminated_quote)
unfolding codes
s3_fields_unterminated_example =
    s3_fields_unterminated (plain (codes "a") ∷ []) (codes "06/Feb") (codes "GET /\\\"\\")
      (refl, tt) refl refl

abbrev line : Str
line =
    codes
      "owner bucket [06/Feb/2019:00:00:38 +0000] 192.0.2.3 - 3E57427F3EXAMPLE REST.GET.OBJECT a/key \"GET /a/key?X-Amz-Signature=secret HTTP/1.1\" 200"

abbrev parsed : S3Entry
parsed = s3_entry (map value (take 10 written)) 26

parsed-line : s3_parse text_clock line ≡ ok parsed
unfolding s3_parse s3_fields s3_read s3_step s3_parse_fields named s3_entry s3_get codes str_eq
parsed-line = refl

s3_parse_iff_example :
    (s3_parse text_clock line ≡ ok parsed)
    ↔ ((f : List Str) × (s3_fields line ≡ ok f) × IsEntryOf text_clock f parsed)
s3_parse_iff_example = s3_parse_iff text_clock line parsed

s3_parse_clean_example : (has_query parsed.path ≡ false) × (has_query parsed.referer ≡ false)
s3_parse_clean_example = s3_parse_clean text_clock line parsed parsed-line

s3_parse_request_example :
    (parsed.method ≡ codes "GET")
    × (parsed.proto ≡ codes "HTTP/1.1")
    × (has_query parsed.path ≡ false)
    × ((q : Str) × (codes "/a/key?X-Amz-Signature=secret" ≡ parsed.path ++ q)
        × (is_query_part q ≡ true))
unfolding codes s3_fields s3_read s3_step has_prefix
s3_parse_request_example =
    s3_parse_request text_clock line parsed parsed-line (map value (take 10 written)) (codes "GET")
      (codes "/a/key?X-Amz-Signature=secret") (codes "HTTP/1.1") refl refl refl refl refl

-- A request URI alone: the query stays, in the method.
kept_query :
    (split_request (codes "/a/key?X-Amz-Signature=secret")).0
    ≡ codes "/a/key?X-Amz-Signature=secret"
unfolding codes split_request cut index_byte
kept_query = refl

decode_lines-accounts_for_example :
    let cs = outcomes (s3_parse text_clock) (line ∷ [] ∷ codes "[bad" ∷ []) in
    decode_lines (s3_parse text_clock) (line ∷ [] ∷ codes "[bad" ∷ [])
    ≡ record { entries = accepted cs; bad = length (faults cs); first = head? (faults cs) }
decode_lines-accounts_for_example =
    decode_lines-accounts_for (s3_parse text_clock) (line ∷ [] ∷ codes "[bad" ∷ [])

abbrev successful_reads : S3Filter
successful_reads = record {
  operations = codes "get" ∷ [];
  statuses = codes "2xx" ∷ [];
  requester = codes "anonymous";
  client_ip = [];
  key_prefix = [];
  errors_only = false;
  buckets = [];
  since = 0;
  until = 100;
}

match_s3_iff_example : (match_s3 successful_reads parsed ≡ true) ↔ SelectsS3 successful_reads parsed
match_s3_iff_example = match_s3_iff successful_reads parsed

rules_of-rule_example : blame (rules_of waf_record) ≡ (
    if from_group waf_record
    then reported (waf_record.terminating_rule_id, []) (last_ending waf_record.rule_group_list)
    else (waf_record.terminating_rule_id, []))
rules_of-rule_example = rules_of-rule waf_record

rules_of-counted_example :
    NoRepeat (rules_of waf_record).counted
    × (IsNamed (codes "G/excluded") (rules_of waf_record).counted
        ↔ IsNamed (codes "G/excluded") (counted_names waf_record))
rules_of-counted_example = rules_of-counted waf_record (codes "G/excluded")

abbrev allowed : WafEntry
allowed = waf_entry_of (codes "ALLOW")

exploit_match_iff_example : (exploit_match allowed ≢ []) ↔ (
    (allowed.action ≡ codes "ALLOW")
    × (Some (Begins exploit_groups) allowed.count_rules
        ⊎ Some (Begins exploit_labels) allowed.labels))
exploit_match_iff_example = exploit_match_iff allowed

abbrev allowed_only : WafFilter
allowed_only = record {
  actions = codes " allow" ∷ [];
  client_ip = codes "10.";
  countries = [];
  rule = [];
  uri = codes "/LOGIN";
  host = [];
  since = 0;
  until = 0;
}

match_waf_iff_example : (match_waf allowed_only allowed ≡ true) ↔ SelectsWaf allowed_only allowed
match_waf_iff_example = match_waf_iff allowed_only allowed

abbrev scan_of_changes : S3Scan
scan_of_changes = record {
  filter = record successful_reads { operations = []; requester = codes "r" };
  denied_threshold = 0;
  delete_threshold = 0;
  egress_bytes = 0;
  max_events = 1;
}

abbrev fetch_changes : Str → Fetched S3Entry
fetch_changes k = got (s3_change (length k * 10) ∷ s3_change 30 ∷ []) none

-- Two workers with a key each, of which the second one has the earliest entry.
abbrev taken_keys : List (List Str)
taken_keys = (codes "bb" ∷ []) ∷ (codes "a" ∷ []) ∷ []

run_s3-matches_example :
    (run_s3 (λ n. []) scan_of_changes fetch_changes taken_keys []).matches
    ≡ first_entries
        (max_events_of 1)
        (selected_s3_of scan_of_changes.filter fetch_changes taken_keys)
run_s3-matches_example = run_s3-matches (λ n. []) scan_of_changes fetch_changes taken_keys []
