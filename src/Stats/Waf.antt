-- ===== src/Stats/Waf.antt =====
-- internal/stats/waf.go: the aggregates of a scan of WAF logs, less the shares that are floats.
pub mod Clients
use ctaudit.Prelude.{
  Word, ◌+ʷ◌, slt, Bool, true, false, not, ◌&&◌, ◌||◌, List, [], ◌∷◌, ◌++◌, if◌then◌else◌, or_else,
  is_empty,
}
use ctaudit.Text.{Str, codes, str_eq, nonempty}
use ctaudit.Instant.{Time, is_zero, before, zero_time}
use ctaudit.Map.{find, put, str_comparable}
use ctaudit.Map.Tally.{get}
use ctaudit.S3Log.Select.{format_int}
use ctaudit.WafLog.{WafEntry, exploit_match}
use ctaudit.Stats.Counter.{Counter, add, merge}
use ctaudit.Stats.Hours.{Hours, in_hour, merge_hours}
use ctaudit.Stats.Paths.{normalize_path}
use ctaudit.Stats.Summary.{earliest, latest}

pub record IpStats : Type 0 where
  pub blocks : Word
  pub allows : Word
  pub rate_limited : Word
  pub challenge_fails : Word

unfoldable pub no_ip_stats : IpStats
no_ip_stats = record { blocks = 0; allows = 0; rate_limited = 0; challenge_fails = 0 }

pub record ExploitHit : Type 0 where
  pub count : Word
  pub first : Time
  pub uri : Str
  pub matches : Counter

unfoldable pub no_exploit : ExploitHit
no_exploit = record { count = 0; first = zero_time; uri = []; matches = [] }

pub record WafSummary : Type 0 where
  pub total : Word
  pub counted : Word
  pub first : Time
  pub last : Time
  pub by_action : Counter
  pub by_acl : Counter
  pub by_rule : Counter
  pub by_rule_group : Counter
  pub by_client_ip : Counter
  pub by_blocked_ip : Counter
  pub by_country : Counter
  pub by_blocked_country : Counter
  pub by_host : Counter
  pub by_uri : Counter
  pub by_method : Counter
  pub by_user_agent : Counter
  pub by_source : Counter
  pub by_label : Counter
  pub by_count_rule : Counter
  pub by_ja4 : Counter
  pub by_response_code : Counter
  pub by_hour : Hours
  pub ips : List (Str × IpStats)
  pub rate_by_rule : List (Str × Counter)
  pub exploits : List (Str × ExploitHit)
  pub oversize : Word
  pub oversize_ips : Counter

-- NewWAFSummary
unfoldable pub new_waf_summary : WafSummary
new_waf_summary = record {
  total = 0;
  counted = 0;
  first = zero_time;
  last = zero_time;
  by_action = [];
  by_acl = [];
  by_rule = [];
  by_rule_group = [];
  by_client_ip = [];
  by_blocked_ip = [];
  by_country = [];
  by_blocked_country = [];
  by_host = [];
  by_uri = [];
  by_method = [];
  by_user_agent = [];
  by_source = [];
  by_label = [];
  by_count_rule = [];
  by_ja4 = [];
  by_response_code = [];
  by_hour = [];
  ips = [];
  rate_by_rule = [];
  exploits = [];
  oversize = 0;
  oversize_ips = [];
}

-- s.Blocked()
unfoldable pub blocked : WafSummary → Word
unfolding codes
blocked s = get (codes "BLOCK") s.by_action

-- The calls of `add` of a loop over names.
unfoldable pub add_each : List Str → Counter → Counter
add_each [] c = c
add_each (k ∷ ks) c = add_each ks (add k c)

abbrev pub has_action : WafEntry → Str → Bool
has_action e a = str_eq e.action a

abbrev pub one_if : Bool → Word → Word
one_if b n = if b then n +ʷ 1 else n

-- What Add changes of the client's counts.
unfoldable pub count_client : WafEntry → IpStats → IpStats
unfolding codes str_eq
count_client e st = record {
  blocks = one_if (has_action e (codes "BLOCK")) st.blocks;
  allows = one_if (has_action e (codes "ALLOW")) st.allows;
  rate_limited = one_if (nonempty e.rate_rule) st.rate_limited;
  challenge_fails = one_if e.challenge_failed st.challenge_fails;
}

-- s.ip(addr), with the change made to what it returns
unfoldable pub change_ip : Str → (IpStats → IpStats) → List (Str × IpStats) → List (Str × IpStats)
change_ip addr f m = put addr (f (or_else (find addr m) no_ip_stats)) m

unfoldable pub add_exploit : WafEntry → Str → ExploitHit → ExploitHit
add_exploit e m h =
    let sooner = is_zero h.first || before e.time h.first in
    record {
      count = h.count +ʷ 1;
      first = if sooner then e.time else h.first;
      uri = if sooner then e.uri else h.uri;
      matches = add m h.matches;
    }

-- s.Add(e)
unfoldable pub add_waf : WafEntry → WafSummary → WafSummary
unfolding codes str_eq
add_waf e s =
    let from_client = nonempty e.client_ip in
    let is_block = from_client && has_action e (codes "BLOCK") in
    let m = exploit_match e in
    record {
      total = s.total +ʷ 1;
      counted = one_if (not (is_empty e.count_rules)) s.counted;
      first = earliest s.first e.time;
      last = latest s.last e.time;
      by_action = add e.action s.by_action;
      by_acl = add e.web_acl s.by_acl;
      by_rule = if has_action e (codes "ALLOW") then s.by_rule else add e.rule s.by_rule;
      by_rule_group = add e.rule_group s.by_rule_group;
      by_client_ip = add e.client_ip s.by_client_ip;
      by_blocked_ip = if is_block then add e.client_ip s.by_blocked_ip else s.by_blocked_ip;
      by_country = add e.country s.by_country;
      by_blocked_country =
          if is_block then add e.country s.by_blocked_country else s.by_blocked_country;
      by_host = add e.host s.by_host;
      by_uri = add (normalize_path e.uri) s.by_uri;
      by_method = add e.method s.by_method;
      by_user_agent = add e.user_agent s.by_user_agent;
      by_source = add e.source s.by_source;
      by_label = add_each e.labels s.by_label;
      by_count_rule = add_each e.count_rules s.by_count_rule;
      by_ja4 = add e.ja4 s.by_ja4;
      by_response_code =
          if slt 0 e.response_code
          then add (format_int e.response_code) s.by_response_code
          else s.by_response_code;
      by_hour = in_hour e.time (add e.action) s.by_hour;
      ips = if from_client then change_ip e.client_ip (count_client e) s.ips else s.ips;
      rate_by_rule =
          if nonempty e.rate_rule
          then put e.rate_rule (add e.client_ip (or_else (find e.rate_rule s.rate_by_rule) []))
              s.rate_by_rule
          else s.rate_by_rule;
      exploits =
          if nonempty m
          then put e.client_ip (add_exploit e m (or_else (find e.client_ip s.exploits) no_exploit))
              s.exploits
          else s.exploits;
      oversize = one_if e.oversize s.oversize;
      oversize_ips = if e.oversize then add e.client_ip s.oversize_ips else s.oversize_ips;
    }

unfoldable pub add_ip_stats : IpStats → IpStats → IpStats
add_ip_stats st d = record {
  blocks = d.blocks +ʷ st.blocks;
  allows = d.allows +ʷ st.allows;
  rate_limited = d.rate_limited +ʷ st.rate_limited;
  challenge_fails = d.challenge_fails +ʷ st.challenge_fails;
}

unfoldable pub merge_ips : List (Str × IpStats) → List (Str × IpStats) → List (Str × IpStats)
merge_ips [] m = m
merge_ips ((addr, st) ∷ o) m = merge_ips o (change_ip addr (add_ip_stats st) m)

unfoldable pub merge_rates : List (Str × Counter) → List (Str × Counter) → List (Str × Counter)
merge_rates [] m = m
merge_rates ((r, c) ∷ o) m = merge_rates o (put r (merge c (or_else (find r m) [])) m)

unfoldable pub merge_exploit : ExploitHit → ExploitHit → ExploitHit
merge_exploit h d =
    let sooner = is_zero d.first || (not (is_zero h.first) && before h.first d.first) in
    record {
      count = d.count +ʷ h.count;
      first = if sooner then h.first else d.first;
      uri = if sooner then h.uri else d.uri;
      matches = merge h.matches d.matches;
    }

unfoldable pub merge_exploits :
    List (Str × ExploitHit) → List (Str × ExploitHit) → List (Str × ExploitHit)
merge_exploits [] m = m
merge_exploits ((addr, h) ∷ o) m =
    merge_exploits o (put addr (merge_exploit h (or_else (find addr m) no_exploit)) m)

-- s.Merge(o), for an `o` that is not nil.
unfoldable pub merge_waf : WafSummary → WafSummary → WafSummary
merge_waf o s = record {
  total = s.total +ʷ o.total;
  counted = s.counted +ʷ o.counted;
  first = earliest s.first o.first;
  last = if before s.last o.last then o.last else s.last;
  by_action = merge o.by_action s.by_action;
  by_acl = merge o.by_acl s.by_acl;
  by_rule = merge o.by_rule s.by_rule;
  by_rule_group = merge o.by_rule_group s.by_rule_group;
  by_client_ip = merge o.by_client_ip s.by_client_ip;
  by_blocked_ip = merge o.by_blocked_ip s.by_blocked_ip;
  by_country = merge o.by_country s.by_country;
  by_blocked_country = merge o.by_blocked_country s.by_blocked_country;
  by_host = merge o.by_host s.by_host;
  by_uri = merge o.by_uri s.by_uri;
  by_method = merge o.by_method s.by_method;
  by_user_agent = merge o.by_user_agent s.by_user_agent;
  by_source = merge o.by_source s.by_source;
  by_label = merge o.by_label s.by_label;
  by_count_rule = merge o.by_count_rule s.by_count_rule;
  by_ja4 = merge o.by_ja4 s.by_ja4;
  by_response_code = merge o.by_response_code s.by_response_code;
  by_hour = merge_hours merge o.by_hour s.by_hour;
  ips = merge_ips o.ips s.ips;
  rate_by_rule = merge_rates o.rate_by_rule s.rate_by_rule;
  exploits = merge_exploits o.exploits s.exploits;
  oversize = s.oversize +ʷ o.oversize;
  oversize_ips = merge o.oversize_ips s.oversize_ips;
}
