-- ===== src/WafLog.antt =====
-- internal/waflog: AWS WAF logs. Package encoding/json, which reads a line into the raw record, and
-- time.UnixMilli are parameters of the parser.
pub mod Parse
pub mod Rules
pub mod Counted
pub mod Exploit
pub mod Select
pub mod Selects
use ctaudit.Prelude.{Word, Bool, Option, none, some, List, [], ◌∷◌, if◌then◌else◌, any_of}
use ctaudit.Text.{Str, codes, str_eq, has_prefix}
use ctaudit.Instant.{Time}

pub record WafEntry : Type 0 where
  pub time : Time
  pub web_acl : Str
  pub action : Str
  pub rule : Str
  pub rule_type : Str
  pub rule_group : Str
  pub source : Str
  pub source_id : Str
  pub client_ip : Str
  pub country : Str
  pub method : Str
  pub host : Str
  pub uri : Str
  pub user_agent : Str
  pub labels : List Str
  pub count_rules : List Str
  pub rate_rule : Str
  pub response_code : Word
  pub oversize : Bool
  pub ja3 : Str
  pub ja4 : Str
  pub request_id : Str
  pub challenge_failed : Bool

-- What encoding/json fills in of a line; a nil pointer is `none`.
pub record RawRule : Type 0 where
  pub rule_id : Str
  pub action : Str

pub record RawChallenge : Type 0 where
  pub response_code : Word
  pub failure_reason : Str

pub record RawGroup : Type 0 where
  pub rule_group_id : Str
  pub terminating_rule : Option RawRule
  pub non_terminating : List RawRule
  pub excluded_rules : List Str

pub record RawHeader : Type 0 where
  pub name : Str
  pub value : Str

pub record RawRequest : Type 0 where
  pub client_ip : Str
  pub country : Str
  pub headers : List RawHeader
  pub uri : Str
  pub http_method : Str
  pub request_id : Str

pub record RawRecord : Type 0 where
  pub timestamp : Word
  pub web_acl_id : Str
  pub terminating_rule_id : Str
  pub terminating_rule_type : Str
  pub action : Str
  pub http_source_name : Str
  pub http_source_id : Str
  pub rule_group_list : List RawGroup
  pub non_terminating : List RawRule
  pub response_code_sent : Word
  pub http_request : RawRequest
  pub labels : List Str
  pub captcha_response : Option RawChallenge
  pub challenge_response : Option RawChallenge
  pub oversize_fields : List Str
  pub ja3 : Str
  pub ja4 : Str

-- exploitGroups and exploitLabels
unfoldable pub exploit_groups : List Str
unfolding codes
exploit_groups =
    codes "AWSManagedRulesSQLiRuleSet/"
    ∷ codes "AWSManagedRulesKnownBadInputsRuleSet/"
    ∷ codes "AWSManagedRulesCommonRuleSet/"
    ∷ []

unfoldable pub exploit_labels : List Str
unfolding codes
exploit_labels =
    codes "awswaf:managed:aws:sql-database:"
    ∷ codes "awswaf:managed:aws:known-bad-inputs:"
    ∷ codes "awswaf:managed:aws:core-rule-set:"
    ∷ []

-- The first text that begins with one of the prefixes.
unfoldable pub first_with : List Str → List Str → Option Str
first_with prefixes [] = none
first_with prefixes (s ∷ rest) =
    if any_of (has_prefix s) prefixes then some s else first_with prefixes rest

-- e.ExploitMatch()
unfoldable pub exploit_match : WafEntry → Str
unfolding codes str_eq
exploit_match e =
    if str_eq e.action (codes "ALLOW")
    then elim (first_with exploit_groups e.count_rules) [
      | some r ↦ r
      | none ↦ elim (first_with exploit_labels e.labels) [ some l ↦ l | none ↦ [] ]
    ]
    else []
