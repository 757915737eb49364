-- ===== src/Query/Selects.antt =====
-- What the filter on CloudTrail records selects, described without its tests.
use ctaudit.Prelude.{
  ◌≤◌, ◌<◌, true, false, ◌≡◌, ◌≢◌, ◌↔◌, ◌⊎◌, List, [], arith, Some, any_of_iff, is_empty_iff,
  Some_map,
}
use ctaudit.Text.{Str, codes, contains, to_lower, equal_fold, trim_suffix}
use ctaudit.Text.Laws.{nonempty_iff, equal_fold_iff}
use ctaudit.CtEvent.{Record, actor, service_name, is_write}
use ctaudit.Query.{
  Filter, contains_fold, any_equal_fold, matches_source, matches_resource, match, is_narrowing,
}

-- `s` holds `t` as a substring, letter case aside.
abbrev pub Holds : Str → Str → Type 0
Holds s t = contains (to_lower s) (to_lower t) ≡ true

-- A criterion that is not set selects every record.
pub record Selects (f : Filter) (r : Record) : Type 0 where
  pub principal : f.principal ≢ [] → Holds (actor r) f.principal
  pub resource :
      f.resource ≢ []
      → Some (λ res. Holds res.arn f.resource) r.resources ⊎ Holds r.request_parameters f.resource
  pub source_ip : f.source_ip ≢ [] → Holds r.source_ip_address f.source_ip
  pub event : f.events ≢ [] → Some (λ e. to_lower e ≡ to_lower r.event_name) f.events
  pub source :
      f.sources ≢ []
      → Some
          (λ s. to_lower (trim_suffix s (codes ".amazonaws.com")) ≡ to_lower (service_name r))
          f.sources
  pub error : f.errors_only ≡ true → r.error_code ≢ []
  pub write : f.writes_only ≡ true → is_write r ≡ true
  pub since : f.since ≢ 0 → f.since ≤ r.event_time
  pub until : f.until ≢ 0 → r.event_time < f.until

any_equal_fold_iff :
    (l : List Str) (v : Str) → (any_equal_fold l v ≡ true) ↔ Some (λ e. to_lower e ≡ to_lower v) l
unfolding any_equal_fold
any_equal_fold_iff l v =
    let e = any_of_iff (λ c. equal_fold c v) l in
    (
      λ h. Some_map (λ c. (equal_fold_iff c v).0) l (e.0 h),
      λ h. e.1 (Some_map (λ c. (equal_fold_iff c v).1) l h),
    )

matches_source_iff :
    (r : Record) (l : List Str)
    → (matches_source r l ≡ true)
      ↔ Some (λ s. to_lower (trim_suffix s (codes ".amazonaws.com")) ≡ to_lower (service_name r)) l
unfolding matches_source
matches_source_iff r l =
    let short = λ (s : Str). trim_suffix s (codes ".amazonaws.com") in
    let e = any_of_iff (λ s. equal_fold (short s) (service_name r)) l in
    (
      λ h. Some_map (λ s. (equal_fold_iff (short s) (service_name r)).0) l (e.0 h),
      λ h. e.1 (Some_map (λ s. (equal_fold_iff (short s) (service_name r)).1) l h),
    )

matches_resource_iff :
    (r : Record) (needle : Str)
    → (matches_resource r needle ≡ true)
      ↔ (Some (λ res. Holds res.arn needle) r.resources ⊎ Holds r.request_parameters needle)
unfolding matches_resource contains_fold
matches_resource_iff r needle =
    ground (arith, any_of_iff (λ res. contains_fold res.arn needle) r.resources)

module _ (f : Filter) (r : Record) where
  match→Selects : match f r ≡ true → Selects f r
  unfolding match contains_fold
  match→Selects h = record {
    principal = ground (arith, nonempty_iff f.principal);
    resource = ground (arith, nonempty_iff f.resource, matches_resource_iff r f.resource);
    source_ip = ground (arith, nonempty_iff f.source_ip);
    event = ground (arith, is_empty_iff f.events, any_equal_fold_iff f.events r.event_name);
    source = ground (arith, is_empty_iff f.sources, matches_source_iff r f.sources);
    error = ground (arith, nonempty_iff r.error_code);
    write = ground arith;
    since = ground arith;
    until = ground arith;
  }

  Selects→match : Selects f r → match f r ≡ true
  unfolding match contains_fold
  Selects→match s = ground (
    arith,
    nonempty_iff f.principal,
    nonempty_iff f.resource,
    matches_resource_iff r f.resource,
    nonempty_iff f.source_ip,
    is_empty_iff f.events,
    any_equal_fold_iff f.events r.event_name,
    is_empty_iff f.sources,
    matches_source_iff r f.sources,
    nonempty_iff r.error_code,
    s.principal,
    s.resource,
    s.source_ip,
    s.event,
    s.source,
    s.error,
    s.write,
    s.since,
    s.until,
  )

-- A record passes the filter exactly when it meets every criterion that is set: substrings and
-- equalities that ignore letter case, and the window from `since`, inclusive, to `until`. A source is
-- compared with the service of the record once the suffix .amazonaws.com is cut off, which the code
-- cuts off in lower case only: with the suffix in capitals a source names no service, though the
-- comment on Sources in internal/query/filter.go says that letter case is ignored.
pub match_iff : (f : Filter) (r : Record) → (match f r ≡ true) ↔ Selects f r
match_iff f r = (match→Selects f r, Selects→match f r)

-- A filter that is not narrowing, names no source and admits reads selects every record of its
-- window.
match_of_wide :
    (f : Filter) (r : Record)
    → is_narrowing f ≡ false
    → f.sources ≡ []
    → f.writes_only ≡ false
    → (f.since ≤ r.event_time)
    → (r.event_time < f.until)
    → match f r ≡ true
unfolding is_narrowing
match_of_wide f r narrow no_sources no_writes after earlier = Selects→match f r (record {
  principal = ground (arith, nonempty_iff f.principal);
  resource = ground (arith, nonempty_iff f.resource);
  source_ip = ground (arith, nonempty_iff f.source_ip);
  event = ground (arith, is_empty_iff f.events);
  source = λ h. absurd (h no_sources);
  error = ground arith;
  write = ground arith;
  since = λ _. after;
  until = λ _. earlier;
})
