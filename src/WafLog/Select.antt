-- ===== src/WafLog/Select.antt =====
-- internal/waflog/filter.go
use ctaudit.Prelude.{Bool, false, not, ◌&&◌, ◌||◌, List, if◌then◌else◌, any_of, is_empty}
use ctaudit.Text.{Str, nonempty, contains, equal_fold, trim_space}
use ctaudit.Instant.{Time, is_zero, before}
use ctaudit.Query.{contains_fold}
use ctaudit.WafLog.{WafEntry}

pub record WafFilter : Type 0 where
  pub actions : List Str
  pub client_ip : Str
  pub countries : List Str
  pub rule : Str
  pub uri : Str
  pub host : Str
  pub since : Time
  pub until : Time

-- anyEqualFold(candidates, value)
unfoldable pub any_equal_trimmed : List Str → Str → Bool
any_equal_trimmed candidates value = any_of (λ c. equal_fold (trim_space c) value) candidates

-- f.Match(e)
unfoldable pub match_waf : WafFilter → WafEntry → Bool
match_waf f e =
    if not (is_empty f.actions) && not (any_equal_trimmed f.actions e.action)
    then false
    else if nonempty f.client_ip && not (contains e.client_ip f.client_ip)
    then false
    else if not (is_empty f.countries) && not (any_equal_trimmed f.countries e.country)
    then false
    else if nonempty f.rule && not (contains_fold e.rule f.rule)
    then false
    else if nonempty f.uri && not (contains_fold e.uri f.uri)
    then false
    else if nonempty f.host && not (contains_fold e.host f.host)
    then false
    else if not (is_zero f.since) && before e.time f.since
    then false
    else not (not (is_zero f.until) && not (before e.time f.until))

-- f.IsNarrowing()
unfoldable pub waf_is_narrowing : WafFilter → Bool
waf_is_narrowing f =
    not (is_empty f.actions)
    || nonempty f.client_ip
    || not (is_empty f.countries)
    || nonempty f.rule
    || nonempty f.uri
    || nonempty f.host
