-- ===== src/S3Log/Select.antt =====
-- internal/s3log/filter.go
use ctaudit.Prelude.{
  ◌-◌, ◌^◌, Word, Bool, false, not, ◌&&◌, ◌||◌, List, ◌∷◌, if◌then◌else◌, any_of, is_empty, ltb,
}
use ctaudit.Text.{Str, nonempty, str_eq, has_prefix, contains, to_lower, trim_space}
use ctaudit.Text.Decimal.{format}
use ctaudit.Instant.{Time, is_zero, before}
use ctaudit.S3Log.{S3Entry, s3_principal, s3_status_class, s3_is_error}

pub record S3Filter : Type 0 where
  pub operations : List Str
  pub statuses : List Str
  pub requester : Str
  pub client_ip : Str
  pub key_prefix : Str
  pub errors_only : Bool
  pub buckets : List Str
  pub since : Time
  pub until : Time

-- containsFold(haystack, needle)
unfoldable pub contains_trimmed : Str → Str → Bool
contains_trimmed haystack needle = contains (to_lower haystack) (to_lower (trim_space needle))

-- anyContainsFold(value, candidates)
unfoldable pub any_contains : Str → List Str → Bool
any_contains value candidates =
    any_of (λ c. nonempty (trim_space c) && contains_trimmed value c) candidates

-- strconv.Itoa
unfoldable pub format_int : Word → Str
format_int w = if ltb w (2 ^ 63) then format w else b'-' ∷ format (2 ^ 64 - w)

-- f.statusMatch(e)
unfoldable pub status_match : List Str → S3Entry → Bool
status_match statuses e =
    let code = format_int e.status in
    let class = s3_status_class e in
    any_of (λ s. let t = to_lower (trim_space s) in str_eq t code || str_eq t class) statuses

-- f.Match(e)
unfoldable pub match_s3 : S3Filter → S3Entry → Bool
match_s3 f e =
    if not (is_empty f.operations) && not (any_contains e.operation f.operations)
    then false
    else if not (is_empty f.statuses) && not (status_match f.statuses e)
    then false
    else if nonempty f.requester && not (contains_trimmed (s3_principal e) f.requester)
    then false
    else if nonempty f.client_ip && not (contains e.remote_ip f.client_ip)
    then false
    else if nonempty f.key_prefix && not (has_prefix e.key f.key_prefix)
    then false
    else if f.errors_only && not (s3_is_error e)
    then false
    else if not (is_empty f.buckets) && not (any_contains e.bucket f.buckets)
    then false
    else if not (is_zero f.since) && before e.time f.since
    then false
    else not (not (is_zero f.until) && not (before e.time f.until))

-- f.IsNarrowing()
unfoldable pub s3_is_narrowing : S3Filter → Bool
s3_is_narrowing f =
    not (is_empty f.operations)
    || not (is_empty f.statuses)
    || nonempty f.requester
    || nonempty f.client_ip
    || nonempty f.key_prefix
    || f.errors_only
    || not (is_empty f.buckets)
