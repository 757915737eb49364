-- ===== src/WafLog/Parse.antt =====
-- Parse and Decode of internal/waflog/waflog.go.
use ctaudit.Prelude.{
  ℕ, suc, ◌+◌, Word, Bool, true, false, not, ◌&&◌, ◌||◌, slt, Option, none, some, List, [], ◌∷◌,
  ◌++◌, if◌then◌else◌, any_of, is_empty, eqb, take, drop,
}
use ctaudit.Text.{
  Str, codes, str_eq, nonempty, index, index_byte, last_index_byte, to_lower, equal_fold,
  has_suffix,
}
use ctaudit.Instant.{Time}
use ctaudit.LogLines.{Checked, ok, refused, Decoded, decode_lines}
use ctaudit.WafLog.{WafEntry, RawRule, RawChallenge, RawGroup, RawHeader, RawRecord}

-- A name that stands behind a marker, up to the next slash.
unfoldable pub up_to_slash : Str → Str
up_to_slash s = elim (index_byte s b'/') [ none ↦ s | some j ↦ take j s ]

-- aclName(arn)
unfoldable pub acl_name : Str → Str
unfolding codes
acl_name arn = elim (index arn (codes "/webacl/")) [
  | none ↦ arn
  | some i ↦ up_to_slash (drop (i + 8) arn)
]

-- groupName(id)
unfoldable pub group_name : Str → Str
unfolding codes
group_name id = elim (last_index_byte id b'#') [
  | some i ↦ drop (suc i) id
  | none ↦ elim (index id (codes "rulegroup/")) [
    | none ↦ id
    | some i ↦ up_to_slash (drop (i + 10) id)
  ]
]

-- failed(c)
unfoldable pub challenge_failed : Option RawChallenge → Bool
challenge_failed none = false
challenge_failed (some c) =
    nonempty c.failure_reason
    || (not (eqb c.response_code 0) && (slt c.response_code 200 || not (slt c.response_code 300)))

-- e.addCountRule(r), on the rules counted so far
unfoldable pub add_count_rule : List Str → Str → List Str
add_count_rule rules r = if any_of (λ x. str_eq x r) rules then rules else rules ++ r ∷ []

-- The host and the user agent: of several headers with one name, the last is kept.
unfoldable pub read_header : Str × Str → RawHeader → Str × Str
unfolding codes str_eq
read_header (host, agent) h =
    if str_eq (to_lower h.name) (codes "host")
    then (h.value, agent)
    else if str_eq (to_lower h.name) (codes "user-agent")
    then (host, h.value)
    else (host, agent)

unfoldable pub read_headers : Str × Str → List RawHeader → Str × Str
read_headers kept [] = kept
read_headers kept (h ∷ hs) = read_headers (read_header kept h) hs

unfoldable pub names_of : List Str → List Str
names_of [] = []
names_of (l ∷ ls) = if nonempty l then l ∷ names_of ls else names_of ls

-- g.TerminatingRule != nil && g.TerminatingRule.RuleID != "", with the rule's ID
unfoldable pub terminating_id : RawGroup → Option Str
terminating_id g = elim g.terminating_rule [
  | none ↦ none
  | some r ↦ if nonempty r.rule_id then some r.rule_id else none
]

-- The loop that sets `selected`, from position `i` on; -1 is `none`.
unfoldable pub reselect : Option Str → ℕ → Option ℕ → Option ℕ
reselect none i selected = selected
reselect (some id) i selected = some i

unfoldable pub select_last : Option ℕ → ℕ → List RawGroup → Option ℕ
select_last selected i [] = selected
select_last selected i (g ∷ gs) = select_last (reselect (terminating_id g) i selected) (suc i) gs

unfoldable pub from_group : RawRecord → Bool
unfolding codes str_eq
from_group r =
    str_eq r.terminating_rule_type (codes "GROUP")
    || str_eq r.terminating_rule_type (codes "MANAGED_RULE_GROUP")

unfoldable pub selected_group : RawRecord → Option ℕ
selected_group r = if from_group r then select_last none 0 r.rule_group_list else none

-- group + "/" + id
abbrev pub in_group : Str → Str → Str
in_group group id = group ++ b'/' ∷ id

-- What the loops over rules change of the entry.
pub record Ruled : Type 0 where
  pub rule : Str
  pub group : Str
  pub counted : List Str

unfoldable pub count_rule : Ruled → Str → Ruled
count_rule e r = record e { counted = add_count_rule e.counted r }

-- The rules that match without ending the inspection, named by `name`.
unfoldable pub count_matches : (Str → Str) → Ruled → List RawRule → Ruled
unfolding codes
count_matches name e [] = e
count_matches name e (nt ∷ rest) =
    count_matches name
      (if equal_fold nt.action (codes "COUNT") then count_rule e (name nt.rule_id) else e) rest

unfoldable pub count_excluded : (Str → Str) → Ruled → List Str → Ruled
count_excluded name e [] = e
count_excluded name e (id ∷ rest) =
    count_excluded name (if nonempty id then count_rule e (name id) else e) rest

-- The group's terminating rule is the request's rule if the group is the selected one, and counted
-- otherwise.
unfoldable pub end_group : Bool → Str → Ruled → Option Str → Ruled
end_group is_selected group e none = e
end_group true group e (some id) = record e { rule = in_group group id; group = group }
end_group false group e (some id) = count_rule e (in_group group id)

abbrev pub is_at : Option ℕ → ℕ → Bool
is_at none i = false
is_at (some j) i = eqb i j

unfoldable pub read_group : Option ℕ → ℕ → Ruled → RawGroup → Ruled
unfolding end_group count_matches count_excluded
read_group selected i e g =
    let group = group_name g.rule_group_id in
    let ended = end_group (is_at selected i) group e (terminating_id g) in
    count_excluded (in_group group) (count_matches (in_group group) ended g.non_terminating)
      g.excluded_rules

unfoldable pub read_groups : Option ℕ → ℕ → Ruled → List RawGroup → Ruled
read_groups selected i e [] = e
read_groups selected i e (g ∷ gs) = read_groups selected (suc i) (read_group selected i e g) gs

unfoldable pub rules_of : RawRecord → Ruled
unfolding read_groups
rules_of r =
    let start : Ruled = record { rule = r.terminating_rule_id; group = []; counted = [] } in
    count_matches (λ id. id) (read_groups (selected_group r) 0 start r.rule_group_list)
      r.non_terminating

-- Why a line is refused.
pub data WafFault : Type 0 where
  bad_json not_a_record : WafFault

module _ (unmarshal : Str → Option RawRecord) (unix_milli : Word → Time) where
  -- The entry of a raw record that has a timestamp and an action.
  unfoldable pub waf_entry : RawRecord → WafEntry
  unfolding codes str_eq
  waf_entry r =
      let headers = read_headers ([], []) r.http_request.headers in
      let ruled = rules_of r in
      record {
        time = unix_milli r.timestamp;
        web_acl = acl_name r.web_acl_id;
        action = r.action;
        rule = ruled.rule;
        rule_type = r.terminating_rule_type;
        rule_group = ruled.group;
        source = r.http_source_name;
        source_id = r.http_source_id;
        client_ip = r.http_request.client_ip;
        country = r.http_request.country;
        method = r.http_request.http_method;
        host = headers.0;
        uri = r.http_request.uri;
        user_agent = headers.1;
        labels = names_of r.labels;
        count_rules = ruled.counted;
        rate_rule =
            if str_eq r.terminating_rule_type (codes "RATE_BASED")
            then r.terminating_rule_id
            else [];
        response_code = r.response_code_sent;
        oversize = not (is_empty r.oversize_fields);
        ja3 = r.ja3;
        ja4 = r.ja4;
        request_id = r.http_request.request_id;
        challenge_failed =
            challenge_failed r.captcha_response || challenge_failed r.challenge_response;
      }

  -- Parse(line)
  unfoldable pub waf_parse : Str → Checked WafFault WafEntry
  waf_parse line = elim (unmarshal line) [
    | none ↦ refused bad_json
    | some r ↦
        if eqb r.timestamp 0 || is_empty r.action then refused not_a_record else ok (waf_entry r)
  ]

  -- Decode(key, r), where `lines` stands for the bytes of r, unpacked and split into lines by
  -- packages gzip and bufio; its `none` is an error of theirs.
  unfoldable pub waf_decode : Option (List Str) → Option (Decoded WafFault WafEntry)
  waf_decode none = none
  waf_decode (some lines) = some (decode_lines waf_parse lines)

-- IsLogKey(key)
unfoldable pub is_waf_log_key : Str → Bool
unfolding codes
is_waf_log_key key = has_suffix key (codes ".log.gz") || has_suffix key (codes ".gz")
