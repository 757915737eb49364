-- ===== src/WafLog/Selects.antt =====
-- What the filter on WAF log entries selects, described without its tests.
use ctaudit.Prelude.{
  ◌≤◌, ◌<◌, ◌≡◌, ◌≢◌, ◌↔◌, true, List, [], arith, Some, any_of_iff, is_empty_iff, Some_iff,
}
use ctaudit.Text.{Str, contains, equal_fold, to_lower, trim_space}
use ctaudit.Text.Laws.{nonempty_iff, equal_fold_iff}
use ctaudit.Query.{contains_fold}
use ctaudit.Query.Selects.{Holds}
use ctaudit.WafLog.{WafEntry}
use ctaudit.WafLog.Select.{WafFilter, any_equal_trimmed, match_waf}

-- One of the texts, less the white space around it, is the value, letter case aside.
abbrev pub NamesOne : List Str → Str → Type 0
NamesOne l v = Some (λ c. to_lower (trim_space c) ≡ to_lower v) l

-- A criterion that is not set selects every entry.
pub record SelectsWaf (f : WafFilter) (e : WafEntry) : Type 0 where
  pub action : f.actions ≢ [] → NamesOne f.actions e.action
  pub client_ip : f.client_ip ≢ [] → contains e.client_ip f.client_ip ≡ true
  pub country : f.countries ≢ [] → NamesOne f.countries e.country
  pub rule : f.rule ≢ [] → Holds e.rule f.rule
  pub uri : f.uri ≢ [] → Holds e.uri f.uri
  pub host : f.host ≢ [] → Holds e.host f.host
  pub since : f.since ≢ 0 → f.since ≤ e.time
  pub until : f.until ≢ 0 → e.time < f.until

any_equal_trimmed_iff : (l : List Str) (v : Str) → (any_equal_trimmed l v ≡ true) ↔ NamesOne l v
unfolding any_equal_trimmed
any_equal_trimmed_iff l v =
    let e = any_of_iff (λ c. equal_fold (trim_space c) v) l in
    let s =
      Some_iff {P = λ c. equal_fold (trim_space c) v ≡ true}
        {Q = λ c. to_lower (trim_space c) ≡ to_lower v} (λ c. equal_fold_iff (trim_space c) v) l in
    (λ h. s.0 (e.0 h), λ h. e.1 (s.1 h))

module _ (f : WafFilter) (e : WafEntry) where
  match_waf→SelectsWaf : match_waf f e ≡ true → SelectsWaf f e
  unfolding match_waf contains_fold
  match_waf→SelectsWaf h = record {
    action = ground (arith, is_empty_iff f.actions, any_equal_trimmed_iff f.actions e.action);
    client_ip = ground (arith, nonempty_iff f.client_ip);
    country = ground (arith, is_empty_iff f.countries, any_equal_trimmed_iff f.countries e.country);
    rule = ground (arith, nonempty_iff f.rule);
    uri = ground (arith, nonempty_iff f.uri);
    host = ground (arith, nonempty_iff f.host);
    since = ground arith;
    until = ground arith;
  }

  SelectsWaf→match_waf : SelectsWaf f e → match_waf f e ≡ true
  unfolding match_waf contains_fold
  SelectsWaf→match_waf s = ground (
    arith,
    is_empty_iff f.actions,
    any_equal_trimmed_iff f.actions e.action,
    nonempty_iff f.client_ip,
    is_empty_iff f.countries,
    any_equal_trimmed_iff f.countries e.country,
    nonempty_iff f.rule,
    nonempty_iff f.uri,
    nonempty_iff f.host,
    s.action,
    s.client_ip,
    s.country,
    s.rule,
    s.uri,
    s.host,
    s.since,
    s.until,
  )

-- An entry passes the filter exactly when it meets every criterion that is set: an action and a
-- country that are named, an address that holds the text, a rule, a path and a host that hold
-- theirs in any letter case, and the window from `since`, inclusive, to `until`.
pub match_waf_iff : (f : WafFilter) (e : WafEntry) → (match_waf f e ≡ true) ↔ SelectsWaf f e
match_waf_iff f e = (match_waf→SelectsWaf f e, SelectsWaf→match_waf f e)
