-- ===== src/Stats/S3.antt =====
-- internal/stats/s3.go: the aggregates of a scan of S3 access logs.
pub mod Changes
pub mod Bounds
use ctaudit.Prelude.{
  ℕ, ◌+◌, ◌*◌, Word, ◌+ʷ◌, slt, Bool, true, false, not, ◌&&◌, ◌||◌, List, [], ◌∷◌, ◌++◌,
  if◌then◌else◌, eqb, ltb, leb, length, take, or_else, is_empty,
}
use ctaudit.Text.{Str, codes, nonempty}
use ctaudit.Instant.{Time, is_zero, before, zero_time}
use ctaudit.Map.{find, put, has_key, str_comparable}
use ctaudit.Map.Tally.{bump}
use ctaudit.Sort.{sort_by}
use ctaudit.S3Log.{
  S3Entry, s3_principal, s3_status_class, s3_success, s3_is_error, s3_denied, is_object_write,
  is_object_delete, is_multi_delete, is_object_read, is_access_change, s3_weak_tls, sig_v2,
}
use ctaudit.S3Log.Select.{format_int}
use ctaudit.Stats.Counter.{Counter, add, merge}
use ctaudit.Stats.Hours.{Hours, in_hour, merge_hours}
use ctaudit.Stats.Summary.{earliest, latest}

abbrev pub s3_max_keys : ℕ
s3_max_keys = 50000

abbrev pub s3_max_access_changes : ℕ
s3_max_access_changes = 1000

unfoldable pub s3_other : Str
s3_other = codes "(other)"

-- capAdd(c, key, n)
unfoldable pub cap_add : Str → Word → Counter → Counter
cap_add key n c =
    if not (nonempty key) || eqb n 0
    then c
    else if has_key key c || ltb (length c) s3_max_keys
    then bump key n c
    else bump s3_other n c

-- capMerge(dst, src)
unfoldable pub cap_merge : Counter → Counter → Counter
cap_merge [] c = c
cap_merge ((k, v) ∷ src) c = cap_merge src (cap_add k v c)

pub record AnonHit : Type 0 where
  pub count : Word
  pub first : Time
  pub ips : Counter
  pub keys : Counter
  pub ops : Counter

unfoldable pub new_anon_hit : AnonHit
new_anon_hit = record { count = 0; first = zero_time; ips = []; keys = []; ops = [] }

pub record AccessChange : Type 0 where
  pub time : Time
  pub bucket : Str
  pub operation : Str
  pub key : Str
  pub principal : Str
  pub remote_ip : Str

abbrev pub AnonHits : Type 0
AnonHits = List (Str × AnonHit)

-- What anonHit does to the hit of the entry's bucket.
unfoldable pub hit_by : S3Entry → AnonHit → AnonHit
hit_by e h = record {
  count = h.count +ʷ 1;
  first =
      if is_zero h.first || (not (is_zero e.time) && before e.time h.first)
      then e.time
      else h.first;
  ips = cap_add e.remote_ip 1 h.ips;
  keys = cap_add e.key 1 h.keys;
  ops = add e.operation h.ops;
}

-- anonHit(m, e)
unfoldable pub anon_hit : AnonHits → S3Entry → AnonHits
anon_hit m e = put e.bucket (hit_by e (or_else (find e.bucket m) new_anon_hit)) m

abbrev pub changed_before : AccessChange → AccessChange → Bool
changed_before a b = before a.time b.time

-- earliestChanges(c, n)
unfoldable pub earliest_changes : List AccessChange → ℕ → List AccessChange
earliest_changes c n =
    let sorted = sort_by changed_before c in if ltb n (length sorted) then take n sorted else sorted

pub record S3Summary : Type 0 where
  pub total : Word
  pub first : Time
  pub last : Time
  pub bytes_sent : Word
  pub errors : Word
  pub anonymous : Word
  pub denied : Word
  pub by_operation : Counter
  pub by_status : Counter
  pub by_error_code : Counter
  pub by_bucket : Counter
  pub by_tls : Counter
  pub by_auth_type : Counter
  pub by_sig_version : Counter
  pub by_requester : Counter
  pub by_remote_ip : Counter
  pub by_key : Counter
  pub by_user_agent : Counter
  pub by_hour : Hours
  pub denied_by_ip : Counter
  pub denied_by_requester : Counter
  pub deletes_by_principal : Counter
  pub bytes_by_requester : Counter
  pub bytes_by_ip : Counter
  pub anon_writes : AnonHits
  pub anon_reads : AnonHits
  pub access_changes : List AccessChange
  pub weak_tls_by : Counter
  pub plain_http_by : Counter
  pub sig_v2_by : Counter

-- NewS3Summary
unfoldable pub new_s3_summary : S3Summary
new_s3_summary = record {
  total = 0;
  first = zero_time;
  last = zero_time;
  bytes_sent = 0;
  errors = 0;
  anonymous = 0;
  denied = 0;
  by_operation = [];
  by_status = [];
  by_error_code = [];
  by_bucket = [];
  by_tls = [];
  by_auth_type = [];
  by_sig_version = [];
  by_requester = [];
  by_remote_ip = [];
  by_key = [];
  by_user_agent = [];
  by_hour = [];
  denied_by_ip = [];
  denied_by_requester = [];
  deletes_by_principal = [];
  bytes_by_requester = [];
  bytes_by_ip = [];
  anon_writes = [];
  anon_reads = [];
  access_changes = [];
  weak_tls_by = [];
  plain_http_by = [];
  sig_v2_by = [];
}

-- The change that an entry records, where its request succeeded.
unfoldable pub change_of : S3Entry → AccessChange
change_of e = record {
  time = e.time;
  bucket = e.bucket;
  operation = e.operation;
  key = e.key;
  principal = s3_principal e;
  remote_ip = e.remote_ip;
}

-- The access changes with one more, trimmed once they are twice as many as are kept.
unfoldable pub add_change : AccessChange → List AccessChange → List AccessChange
add_change a changes =
    let more = changes ++ a ∷ [] in
    if leb (2 * s3_max_access_changes) (length more)
    then earliest_changes more s3_max_access_changes
    else more

unfoldable pub is_anon_write : S3Entry → Bool
is_anon_write e =
    s3_success e
    && is_empty e.requester
    && (is_object_write e || is_object_delete e || is_multi_delete e)

-- s.Add(e)
unfoldable pub add_s3 : S3Entry → S3Summary → S3Summary
add_s3 e s =
    let principal = s3_principal e in
    let anon = is_empty e.requester in
    let succeeded = s3_success e in
    let sent = slt 0 e.bytes_sent in
    record {
      total = s.total +ʷ 1;
      first = earliest s.first e.time;
      last = latest s.last e.time;
      bytes_sent = s.bytes_sent +ʷ e.bytes_sent;
      errors = if s3_is_error e then s.errors +ʷ 1 else s.errors;
      anonymous = if anon then s.anonymous +ʷ 1 else s.anonymous;
      denied = if s3_denied e then s.denied +ʷ 1 else s.denied;
      by_operation = add e.operation s.by_operation;
      by_status = if slt 0 e.status then add (format_int e.status) s.by_status else s.by_status;
      by_error_code = add e.error_code s.by_error_code;
      by_bucket = add e.bucket s.by_bucket;
      by_tls = add e.tls_version s.by_tls;
      by_auth_type = add e.auth_type s.by_auth_type;
      by_sig_version = add e.sig_version s.by_sig_version;
      by_requester = cap_add principal 1 s.by_requester;
      by_remote_ip = cap_add e.remote_ip 1 s.by_remote_ip;
      by_key = if nonempty e.key then cap_add (e.bucket ++ b'/' ∷ e.key) 1 s.by_key else s.by_key;
      by_user_agent = cap_add e.user_agent 1 s.by_user_agent;
      by_hour = in_hour e.time (add (s3_status_class e)) s.by_hour;
      denied_by_ip = if s3_denied e then cap_add e.remote_ip 1 s.denied_by_ip else s.denied_by_ip;
      denied_by_requester =
          if s3_denied e && not anon
          then cap_add principal 1 s.denied_by_requester
          else s.denied_by_requester;
      deletes_by_principal =
          if succeeded && is_object_delete e
          then cap_add principal 1 s.deletes_by_principal
          else s.deletes_by_principal;
      bytes_by_requester =
          if sent && not anon
          then cap_add principal e.bytes_sent s.bytes_by_requester
          else s.bytes_by_requester;
      bytes_by_ip = if sent then cap_add e.remote_ip e.bytes_sent s.bytes_by_ip else s.bytes_by_ip;
      anon_writes = if is_anon_write e then anon_hit s.anon_writes e else s.anon_writes;
      anon_reads =
          if succeeded && anon && not (is_anon_write e) && is_object_read e
          then anon_hit s.anon_reads e
          else s.anon_reads;
      access_changes =
          if succeeded && is_access_change e
          then add_change (change_of e) s.access_changes
          else s.access_changes;
      weak_tls_by = if s3_weak_tls e then cap_add principal 1 s.weak_tls_by else s.weak_tls_by;
      plain_http_by = if e.plain_http then cap_add principal 1 s.plain_http_by else s.plain_http_by;
      sig_v2_by = if sig_v2 e then cap_add principal 1 s.sig_v2_by else s.sig_v2_by;
    }

-- The hit of one bucket with the other summary's.
unfoldable pub merge_hit : AnonHit → AnonHit → AnonHit
merge_hit h d = record {
  count = d.count +ʷ h.count;
  first =
      if is_zero d.first || (not (is_zero h.first) && before h.first d.first)
      then h.first
      else d.first;
  ips = cap_merge h.ips d.ips;
  keys = cap_merge h.keys d.keys;
  ops = merge h.ops d.ops;
}

unfoldable pub merge_hits : AnonHits → AnonHits → AnonHits
merge_hits [] m = m
merge_hits ((bucket, h) ∷ o) m =
    merge_hits o (put bucket (merge_hit h (or_else (find bucket m) new_anon_hit)) m)

-- The later of two times.
unfoldable pub last_of : Time → Time → Time
last_of s o = if before s o then o else s

-- s.Merge(o), for an `o` that is not nil.
unfoldable pub merge_s3 : S3Summary → S3Summary → S3Summary
merge_s3 o s = record {
  total = s.total +ʷ o.total;
  first = earliest s.first o.first;
  last = last_of s.last o.last;
  bytes_sent = s.bytes_sent +ʷ o.bytes_sent;
  errors = s.errors +ʷ o.errors;
  anonymous = s.anonymous +ʷ o.anonymous;
  denied = s.denied +ʷ o.denied;
  by_operation = merge o.by_operation s.by_operation;
  by_status = merge o.by_status s.by_status;
  by_error_code = merge o.by_error_code s.by_error_code;
  by_bucket = merge o.by_bucket s.by_bucket;
  by_tls = merge o.by_tls s.by_tls;
  by_auth_type = merge o.by_auth_type s.by_auth_type;
  by_sig_version = merge o.by_sig_version s.by_sig_version;
  by_requester = cap_merge o.by_requester s.by_requester;
  by_remote_ip = cap_merge o.by_remote_ip s.by_remote_ip;
  by_key = cap_merge o.by_key s.by_key;
  by_user_agent = cap_merge o.by_user_agent s.by_user_agent;
  by_hour = merge_hours merge o.by_hour s.by_hour;
  denied_by_ip = cap_merge o.denied_by_ip s.denied_by_ip;
  denied_by_requester = cap_merge o.denied_by_requester s.denied_by_requester;
  deletes_by_principal = cap_merge o.deletes_by_principal s.deletes_by_principal;
  bytes_by_requester = cap_merge o.bytes_by_requester s.bytes_by_requester;
  bytes_by_ip = cap_merge o.bytes_by_ip s.bytes_by_ip;
  anon_writes = merge_hits o.anon_writes s.anon_writes;
  anon_reads = merge_hits o.anon_reads s.anon_reads;
  access_changes = earliest_changes (s.access_changes ++ o.access_changes) s3_max_access_changes;
  weak_tls_by = cap_merge o.weak_tls_by s.weak_tls_by;
  plain_http_by = cap_merge o.plain_http_by s.plain_http_by;
  sig_v2_by = cap_merge o.sig_v2_by s.sig_v2_by;
}
