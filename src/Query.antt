-- ===== src/Query.antt =====
-- internal/query/filter.go: the filter on CloudTrail records.
pub mod Selects
use ctaudit.Prelude.{
  Bool, true, false, not, ◌&&◌, ◌||◌, List, [], ◌∷◌, if◌then◌else◌, any_of, is_empty,
}
use ctaudit.Text.{Str, codes, nonempty, contains, to_lower, equal_fold, trim_suffix}
use ctaudit.Instant.{Time, is_zero, before}
use ctaudit.CtEvent.{Record, actor, service_name, is_write}

pub record Filter : Type 0 where
  pub principal : Str
  pub resource : Str
  pub source_ip : Str
  pub events : List Str
  pub sources : List Str
  pub errors_only : Bool
  pub writes_only : Bool
  pub since : Time
  pub until : Time

unfoldable pub contains_fold : Str → Str → Bool
contains_fold haystack needle = contains (to_lower haystack) (to_lower needle)

unfoldable pub any_equal_fold : List Str → Str → Bool
any_equal_fold candidates value = any_of (λ c. equal_fold c value) candidates

unfoldable pub matches_source : Record → List Str → Bool
matches_source r sources =
    any_of (λ s. equal_fold (trim_suffix s (codes ".amazonaws.com")) (service_name r)) sources

unfoldable pub matches_resource : Record → Str → Bool
matches_resource r needle =
    if any_of (λ res. contains_fold res.arn needle) r.resources
    then true
    else contains_fold r.request_parameters needle

-- f.Match(r)
unfoldable pub match : Filter → Record → Bool
match f r =
    if nonempty f.principal && not (contains_fold (actor r) f.principal)
    then false
    else if nonempty f.resource && not (matches_resource r f.resource)
    then false
    else if nonempty f.source_ip && not (contains_fold r.source_ip_address f.source_ip)
    then false
    else if not (is_empty f.events) && not (any_equal_fold f.events r.event_name)
    then false
    else if not (is_empty f.sources) && not (matches_source r f.sources)
    then false
    else if f.errors_only && not (nonempty r.error_code)
    then false
    else if f.writes_only && not (is_write r)
    then false
    else if not (is_zero f.since) && before r.event_time f.since
    then false
    else not (not (is_zero f.until) && not (before r.event_time f.until))

-- f.IsNarrowing()
unfoldable pub is_narrowing : Filter → Bool
is_narrowing f =
    nonempty f.principal
    || nonempty f.resource
    || nonempty f.source_ip
    || not (is_empty f.events)
    || f.errors_only
