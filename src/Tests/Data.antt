-- ===== src/Tests/Data.antt =====
-- The inputs of the tests: a record of root activity, a scan, and stand-ins for the packages that
-- the program calls.
use ctaudit.Prelude.{
  ◌/◌, Word, ◌+ʷ◌, slt, minus_one, length, true, false, Option, none, some, List, [], ◌∷◌,
}
use ctaudit.Text.{Str, codes}
use ctaudit.Text.Decimal.{parse_int}
use ctaudit.CtEvent.{UserIdentity, Record}
use ctaudit.Query.{Filter}
use ctaudit.Findings.{Rule}
use ctaudit.Findings.Rules.{Unmarshal, default_rules}
use ctaudit.Engine.{Fetched, got, lost}
use ctaudit.Engine.CloudTrail.{Options}
use ctaudit.ElbLog.{Runtime}
use ctaudit.Instant.{Time}
use ctaudit.Map.{str_comparable}
use ctaudit.FlowLog.Addr.{NetTexts}
use ctaudit.S3Log.{S3Entry}
use ctaudit.S3Log.Parse.{s3_entry}
use ctaudit.WafLog.{RawRecord, WafEntry}
use ctaudit.WafLog.Parse.{waf_entry}
use ctaudit.FlowLog.{Net}

abbrev pub root_identity : UserIdentity
root_identity = record {
  type = codes "Root";
  principal_id = [];
  arn = codes "arn:aws:iam::1:root";
  account_id = codes "1";
  access_key_id = [];
  user_name = [];
  invoked_by = [];
  session_context = none;
}

abbrev pub root_record : Record
root_record = record {
  event_version = [];
  event_time = 1000;
  event_source = codes "iam.amazonaws.com";
  event_name = codes "CreateAccessKey";
  aws_region = codes "us-east-1";
  source_ip_address = codes "10.0.0.1";
  user_agent = [];
  error_code = [];
  error_message = [];
  event_id = codes "e1";
  event_type = [];
  read_only = none;
  management_event = none;
  event_category = [];
  recipient_account_id = codes "1";
  user_identity = root_identity;
  resources = [];
  request_parameters = [];
  response_elements = [];
  additional_event_data = [];
}

-- A login without MFA, as the stand-in for encoding/json reads it.
abbrev pub login_record : Record
login_record = record root_record {
  event_name = codes "ConsoleLogin";
  response_elements = codes "Success";
  additional_event_data = codes "No";
}

-- Every text is an object with one text, itself, under both names that the rules read.
abbrev pub plain_json : Unmarshal
plain_json = record {
  members = λ raw. some ((codes "ConsoleLogin", raw) ∷ (codes "MFAUsed", raw) ∷ []);
  text = λ raw. some raw;
}

abbrev pub rules : List Rule
rules = default_rules plain_json

abbrev pub wide_filter : Filter
wide_filter = record {
  principal = [];
  resource = [];
  source_ip = [];
  events = [];
  sources = [];
  errors_only = false;
  writes_only = false;
  since = 500;
  until = 2000;
}

abbrev pub options : Options
options = record { filter = wide_filter; rules = some rules; max_events = 3; findings_cap = 2 }

-- Every object holds two records of root activity, but for one that cannot be read.
abbrev pub fetch : Str → Fetched Record
fetch [] = lost (codes "get")
fetch (c ∷ key) = got (root_record ∷ root_record ∷ []) none

abbrev pub took : List (List Str)
took = (codes "a" ∷ [] ∷ codes "b" ∷ []) ∷ (codes "c" ∷ []) ∷ []

-- Numbers stand for floats, and the length of a text for the time it names.
abbrev pub whole_numbers : Runtime
whole_numbers = record {
  Float = Word;
  parse_float = parse_int;
  minus_1 = minus_one;
  is_negative = λ x. slt x 0;
  plus = ◌+ʷ◌;
  thousandth = λ x. x / 1000;
  less = slt;
  seconds_of = λ n. n / 1_000_000_000;
  rfc3339_nano = λ s. some (length s);
  zoneless_nano = λ s. none;
}

-- Texts stand for addresses.
abbrev pub text_net : Net
text_net = record {
  Addr = Str;
  Prefix = Str;
  no_addr = [];
  parse_addr = λ s. some s;
  parse_prefix = λ s. some s;
  masked = λ p. p;
  single = λ a. a;
  is_valid = λ a. true;
  unmap = λ a. a;
  prefix_contains = λ p a. true;
  is_unspecified = λ a. false;
  is_multicast = λ a. false;
  unix = λ n. n;
}

-- The length of a text stands for the time that it names.
abbrev pub text_clock : Str → Option Time
text_clock s = some (length s)

-- A request that the last of two managed groups ended, with an excluded rule.
abbrev pub waf_record : RawRecord
waf_record = record {
  timestamp = 1000;
  web_acl_id = codes "arn:aws:wafv2:us-east-1:1:regional/webacl/front/id";
  terminating_rule_id = codes "group-rule";
  terminating_rule_type = codes "MANAGED_RULE_GROUP";
  action = codes "BLOCK";
  http_source_name = codes "ALB";
  http_source_id = [];
  rule_group_list =
      record {
        rule_group_id = codes "AWS#G";
        terminating_rule = some (record { rule_id = codes "first"; action = codes "BLOCK" });
        non_terminating = [];
        excluded_rules = codes "excluded" ∷ codes "excluded" ∷ [];
      }
      ∷ record {
        rule_group_id = codes "AWS#H";
        terminating_rule = some (record { rule_id = codes "last"; action = codes "BLOCK" });
        non_terminating = record { rule_id = codes "seen"; action = codes "count" } ∷ [];
        excluded_rules = [];
      }
      ∷ [];
  non_terminating = [];
  response_code_sent = 403;
  http_request = record {
    client_ip = codes "10.0.0.1";
    country = codes "DE";
    headers = record { name = codes "Host"; value = codes "example.org" } ∷ [];
    uri = codes "/login/7";
    http_method = codes "GET";
    request_id = [];
  };
  labels = codes "awswaf:managed:aws:sql-database:x" ∷ [];
  captcha_response = none;
  challenge_response = some (record { response_code = 405; failure_reason = [] });
  oversize_fields = [];
  ja3 = [];
  ja4 = [];
}

abbrev pub waf_entry_of : Str → WafEntry
waf_entry_of action = record (waf_entry (λ line. none) (λ n. n) waf_record) { action = action }

abbrev pub text_texts : NetTexts text_net
text_texts = record {
  must_parse_prefix = λ s. s;
  addr_string = λ a. a;
  addr_port_string = λ a p. a;
  comparable_addr = str_comparable;
}

-- A change of a bucket policy that succeeded, at a time.
abbrev pub s3_change : Time → S3Entry
s3_change t = record (s3_entry [] t) {
  bucket = codes "b";
  requester = codes "r";
  operation = codes "REST.PUT.BUCKETPOLICY";
  status = 200;
}
