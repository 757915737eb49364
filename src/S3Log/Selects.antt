-- ===== src/S3Log/Selects.antt =====
-- What the filter on S3 access log entries selects, described without its tests.
use ctaudit.Prelude.{
  ◌≤◌, ◌<◌, ◌≡◌, ◌≢◌, ◌↔◌, ◌⊎◌, true, false, ◌&&◌, ◌||◌, List, [], arith, Some, any_of_iff,
  is_empty_iff, Some_iff, slt,
}
use ctaudit.Text.{Str, nonempty, str_eq, contains, has_prefix, to_lower, trim_space}
use ctaudit.Text.Laws.{nonempty_iff, str_eq_iff}
use ctaudit.S3Log.{S3Entry, s3_principal, s3_status_class, s3_is_error}
use ctaudit.S3Log.Select.{
  S3Filter, any_contains, contains_trimmed, status_match, format_int, match_s3,
}

-- `s` holds `t`, less the white space around it, as a substring, letter case aside.
abbrev pub HoldsTrimmed : Str → Str → Type 0
HoldsTrimmed s t = contains (to_lower s) (to_lower (trim_space t)) ≡ true

-- One of the texts that are not blank is a substring.
abbrev pub HoldsOne : Str → List Str → Type 0
HoldsOne s l = Some (λ c. (trim_space c ≢ []) × HoldsTrimmed s c) l

-- A criterion that is not set selects every entry.
pub record SelectsS3 (f : S3Filter) (e : S3Entry) : Type 0 where
  pub operation : f.operations ≢ [] → HoldsOne e.operation f.operations
  pub status :
      f.statuses ≢ []
      → Some
          (λ s.
            (to_lower (trim_space s) ≡ format_int e.status)
            ⊎ (to_lower (trim_space s) ≡ s3_status_class e))
          f.statuses
  pub requester : f.requester ≢ [] → HoldsTrimmed (s3_principal e) f.requester
  pub client_ip : f.client_ip ≢ [] → contains e.remote_ip f.client_ip ≡ true
  pub key_prefix : f.key_prefix ≢ [] → has_prefix e.key f.key_prefix ≡ true
  pub error : f.errors_only ≡ true → (slt e.status 400 ≡ false) ⊎ (e.error_code ≢ [])
  pub bucket : f.buckets ≢ [] → HoldsOne e.bucket f.buckets
  pub since : f.since ≢ 0 → f.since ≤ e.time
  pub until : f.until ≢ 0 → e.time < f.until

any_contains_iff : (v : Str) (l : List Str) → (any_contains v l ≡ true) ↔ HoldsOne v l
unfolding any_contains contains_trimmed
any_contains_iff v l =
    let test = λ (c : Str). nonempty (trim_space c) && contains_trimmed v c in
    let e = any_of_iff test l in
    let s =
      Some_iff {P = λ c. test c ≡ true} {Q = λ c. (trim_space c ≢ []) × HoldsTrimmed v c}
        (λ c. ground (arith, nonempty_iff (trim_space c))) l in
    (λ h. s.0 (e.0 h), λ h. e.1 (s.1 h))

status_match_iff :
    (l : List Str) (e : S3Entry)
    → (status_match l e ≡ true)
      ↔ Some
          (λ s.
            (to_lower (trim_space s) ≡ format_int e.status)
            ⊎ (to_lower (trim_space s) ≡ s3_status_class e))
          l
unfolding status_match
status_match_iff l e =
    let code = format_int e.status in
    let class = s3_status_class e in
    let test = λ (s : Str).
      str_eq (to_lower (trim_space s)) code || str_eq (to_lower (trim_space s)) class in
    let o = any_of_iff test l in
    let s =
      Some_iff {P = λ s. test s ≡ true}
        {Q = λ s. (to_lower (trim_space s) ≡ code) ⊎ (to_lower (trim_space s) ≡ class)}
        (λ s. ground (
          arith,
          str_eq_iff (to_lower (trim_space s)) code,
          str_eq_iff (to_lower (trim_space s)) class,
        ))
        l in
    (λ h. s.0 (o.0 h), λ h. o.1 (s.1 h))

module _ (f : S3Filter) (e : S3Entry) where
  match_s3→SelectsS3 : match_s3 f e ≡ true → SelectsS3 f e
  unfolding match_s3 contains_trimmed s3_is_error
  match_s3→SelectsS3 h = record {
    operation =
        ground (arith, is_empty_iff f.operations, any_contains_iff e.operation f.operations);
    status = ground (arith, is_empty_iff f.statuses, status_match_iff f.statuses e);
    requester = ground (arith, nonempty_iff f.requester);
    client_ip = ground (arith, nonempty_iff f.client_ip);
    key_prefix = ground (arith, nonempty_iff f.key_prefix);
    error = ground (arith, nonempty_iff e.error_code);
    bucket = ground (arith, is_empty_iff f.buckets, any_contains_iff e.bucket f.buckets);
    since = ground arith;
    until = ground arith;
  }

  SelectsS3→match_s3 : SelectsS3 f e → match_s3 f e ≡ true
  unfolding match_s3 contains_trimmed s3_is_error
  SelectsS3→match_s3 s = ground (
    arith,
    is_empty_iff f.operations,
    any_contains_iff e.operation f.operations,
    is_empty_iff f.statuses,
    status_match_iff f.statuses e,
    nonempty_iff f.requester,
    nonempty_iff f.client_ip,
    nonempty_iff f.key_prefix,
    nonempty_iff e.error_code,
    is_empty_iff f.buckets,
    any_contains_iff e.bucket f.buckets,
    s.operation,
    s.status,
    s.requester,
    s.client_ip,
    s.key_prefix,
    s.error,
    s.bucket,
    s.since,
    s.until,
  )

-- An entry passes the filter exactly when it meets every criterion that is set: an operation and a
-- bucket that hold one of the texts, a status that is listed by its code or its class, a
-- requester, an address or a key that fits, an error, and the window from `since`, inclusive, to
-- `until`.
pub match_s3_iff : (f : S3Filter) (e : S3Entry) → (match_s3 f e ≡ true) ↔ SelectsS3 f e
match_s3_iff f e = (match_s3→SelectsS3 f e, SelectsS3→match_s3 f e)
