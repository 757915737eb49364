-- ===== src/S3Log/Accepts.antt =====
-- Which lines the parser accepts.
use ctaudit.Prelude.{
  ◌≡◌, ◌↔◌, ◌≢◌, ◌⊎◌, ◌≤◌, refl, ap, ◌∙◌, false, true, ◌||◌, Bool, List, [], ltb, length, arith,
  none, some, is_empty, is_empty_iff, inl, inr, Option, if◌then◌else◌, get_elem?, or_else, ℕ, zero,
  suc, ◌∷◌, subst, minus_one,
}
use ctaudit.Text.{Str, codes, str_eq, equal_fold}
use ctaudit.Instant.{Time}
use ctaudit.LogLines.{Checked, ok, refused}
use ctaudit.S3Log.{LineFault, S3Entry, bad_time, missing_name}
use ctaudit.S3Log.Tokens.{s3_fields}
use ctaudit.S3Log.Parse.{
  s3_entry, s3_get, split_request, strip_query, norm_tls, num, plain_request, named,
  s3_parse_fields, s3_parse,
}

Checked-cases :
    {A : Type 0} (c : Checked LineFault A)
    → ((a : A) × (c ≡ ok a)) ⊎ ((e : LineFault) × (c ≡ refused e))
Checked-cases (ok a) = inl (a, refl)
Checked-cases (refused e) = inr (e, refl)

value_of : {A : Type 0} → A → Checked LineFault A → A
value_of d (ok a) = a
value_of d (refused e) = d

pub ok_inj : {A : Type 0} {a b : A} → ◌≡◌ {A = Checked LineFault A} (ok a) (ok b) → a ≡ b
unfolding value_of
ok_inj {a = a} e = ap (value_of a) e

guarded_iff :
    {A : Type 0} (b : Bool) (m : LineFault) (x y : A)
    → ((if b then refused m else ok x) ≡ ok y) ↔ ((b ≡ false) × (x ≡ y))
guarded_iff true m x y = (λ h. ground arith, λ h. ground arith)
guarded_iff false m x y = (λ h. (refl, ok_inj h), λ h. ap ok h.1)

behind_guard :
    {A : Type 0} (b : Bool) (m : LineFault) (c : Checked LineFault A) (y : A)
    → (if b then refused m else c) ≡ ok y
    → (b ≡ false) × (c ≡ ok y)
behind_guard true m c y h = ground arith
behind_guard false m c y h = (refl, h)

behind_clock :
    {A : Type 0} (o : Option Time) (k : Time → Checked LineFault A) (y : A)
    → elim o as (λ _. Checked LineFault A) [ none ↦ refused bad_time | some t ↦ k t ] ≡ ok y
    → (t : Time) × (o ≡ some t) × (k t ≡ ok y)
behind_clock none k y h = ground arith
behind_clock (some t) k y h = (t, refl, h)

behind_fields :
    {A : Type 0} (c : Checked LineFault (List Str)) (k : List Str → Checked LineFault A) (y : A)
    → elim c as (λ _. Checked LineFault A) [ refused e ↦ refused e | ok f ↦ k f ] ≡ ok y
    → (f : List Str) × (c ≡ ok f) × (k f ≡ ok y)
behind_fields (refused e) k y h = ground arith
behind_fields (ok f) k y h = (f, refl, h)

named_iff : (e e' : S3Entry) → (named e ≡ ok e') ↔ ((e ≡ e') × (e.bucket ≢ []) × (e.operation ≢ []))
unfolding named
named_iff e e' = ground (
  arith,
  guarded_iff (is_empty e.bucket || is_empty e.operation) missing_name e e',
  is_empty_iff e.bucket,
  is_empty_iff e.operation,
)

-- The value of a field: nothing where the line has no such field or a dash in its place.
unfoldable pub text_at : List Str → ℕ → Str
unfolding codes
text_at [] i = []
text_at (s ∷ f) zero = if str_eq s (codes "-") then [] else s
text_at (s ∷ f) (suc i) = text_at f i

s3_get_lem : (f : List Str) (i : ℕ) → s3_get f i ≡ text_at f i
unfolding s3_get text_at str_eq codes
s3_get_lem [] i = refl
s3_get_lem (s ∷ f) zero = refl
s3_get_lem (s ∷ f) (suc i) = s3_get_lem f i

-- What each member of an entry is, by the positions of the fields in a line.
pub record Describes (f : List Str) (e : S3Entry) : Type 0 where
  pub bucket : e.bucket ≡ text_at f 1
  pub remote_ip : e.remote_ip ≡ text_at f 3
  pub requester : e.requester ≡ text_at f 4
  pub request_id : e.request_id ≡ text_at f 5
  pub operation : e.operation ≡ text_at f 6
  pub key : e.key ≡ text_at f 7
  pub method : e.method ≡ (split_request (text_at f 8)).0
  pub path : e.path ≡ (split_request (text_at f 8)).1
  pub proto : e.proto ≡ (split_request (text_at f 8)).2
  pub status : e.status ≡ num (text_at f 9) 0
  pub error_code : e.error_code ≡ text_at f 10
  pub bytes_sent : e.bytes_sent ≡ num (text_at f 11) 0
  pub object_size : e.object_size ≡ num (text_at f 12) 0
  pub total_time_ms : e.total_time_ms ≡ num (text_at f 13) minus_one
  pub turnaround_ms : e.turnaround_ms ≡ num (text_at f 14) minus_one
  pub referer : e.referer ≡ strip_query (text_at f 15)
  pub user_agent : e.user_agent ≡ text_at f 16
  pub sig_version : e.sig_version ≡ text_at f 19
  pub cipher_suite : e.cipher_suite ≡ text_at f 20
  pub auth_type : e.auth_type ≡ text_at f 21
  pub host_header : e.host_header ≡ text_at f 22
  pub tls_version : e.tls_version ≡ norm_tls (text_at f 23)
  pub access_point_arn : e.access_point_arn ≡ text_at f 24
  pub acl_required : e.acl_required ≡ equal_fold (text_at f 25) (codes "yes")
  pub plain_http : e.plain_http ≡ plain_request f (text_at f 6)

s3_entry-Describes : (f : List Str) (t : Time) → Describes f (s3_entry f t)
unfolding s3_entry
s3_entry-Describes f t = record {
  bucket = s3_get_lem f 1;
  remote_ip = s3_get_lem f 3;
  requester = s3_get_lem f 4;
  request_id = s3_get_lem f 5;
  operation = s3_get_lem f 6;
  key = s3_get_lem f 7;
  method = ap (λ s. (split_request s).0) (s3_get_lem f 8);
  path = ap (λ s. (split_request s).1) (s3_get_lem f 8);
  proto = ap (λ s. (split_request s).2) (s3_get_lem f 8);
  status = ap (λ s. num s 0) (s3_get_lem f 9);
  error_code = s3_get_lem f 10;
  bytes_sent = ap (λ s. num s 0) (s3_get_lem f 11);
  object_size = ap (λ s. num s 0) (s3_get_lem f 12);
  total_time_ms = ap (λ s. num s minus_one) (s3_get_lem f 13);
  turnaround_ms = ap (λ s. num s minus_one) (s3_get_lem f 14);
  referer = ap (λ s. strip_query s) (s3_get_lem f 15);
  user_agent = s3_get_lem f 16;
  sig_version = s3_get_lem f 19;
  cipher_suite = s3_get_lem f 20;
  auth_type = s3_get_lem f 21;
  host_header = s3_get_lem f 22;
  tls_version = ap (λ s. norm_tls s) (s3_get_lem f 23);
  access_point_arn = s3_get_lem f 24;
  acl_required = ap (λ s. equal_fold s (codes "yes")) (s3_get_lem f 25);
  plain_http = ap (λ s. plain_request f s) (s3_get_lem f 6);
}

-- The members and the time leave no choice.
Describes-unique : (f : List Str) (e : S3Entry) → Describes f e → s3_entry f e.time ≡ e
unfolding s3_entry
Describes-unique f e d =
    let made = s3_entry-Describes f e.time in
    cc (
      made.bucket, d.bucket, made.remote_ip, d.remote_ip, made.requester, d.requester,
      made.request_id, d.request_id, made.operation, d.operation, made.key, d.key, made.method,
      d.method, made.path, d.path, made.proto, d.proto, made.status, d.status, made.error_code,
      d.error_code, made.bytes_sent, d.bytes_sent, made.object_size, d.object_size,
      made.total_time_ms, d.total_time_ms, made.turnaround_ms, d.turnaround_ms, made.referer,
      d.referer, made.user_agent, d.user_agent, made.sig_version, d.sig_version, made.cipher_suite,
      d.cipher_suite, made.auth_type, d.auth_type, made.host_header, d.host_header,
      made.tls_version, d.tls_version, made.access_point_arn, d.access_point_arn, made.acl_required,
      d.acl_required, made.plain_http, d.plain_http,
    )

module _ (clock : Str → Option Time) where
  -- What the parser makes of a line of fields.
  pub record IsEntryOf (f : List Str) (e : S3Entry) : Type 0 where
    pub enough : 10 ≤ length f
    pub reads : clock (or_else (get_elem? f 2) []) ≡ some e.time
    pub describes : Describes f e
    pub has_bucket : e.bucket ≢ []
    pub has_operation : e.operation ≢ []

  s3_entry-IsEntryOf :
      (f : List Str) (t : Time)
      → 10 ≤ length f
      → clock (or_else (get_elem? f 2) []) ≡ some t
      → (s3_entry f t).bucket ≢ []
      → (s3_entry f t).operation ≢ []
      → IsEntryOf f (s3_entry f t)
  s3_entry-IsEntryOf f t enough reads b o = record {
    enough = enough;
    reads = unfold s3_entry in reads;
    describes = s3_entry-Describes f t;
    has_bucket = b;
    has_operation = o;
  }

  s3_parse_fields→IsEntryOf :
      (f : List Str) (e : S3Entry) → s3_parse_fields clock f ≡ ok e → IsEntryOf f e
  unfolding s3_parse_fields
  s3_parse_fields→IsEntryOf f e h =
      let g = behind_guard _ _ _ e h in
      let (t, reads, made) = behind_clock _ (λ t. named (s3_entry f t)) e g.1 in
      let n = (named_iff (s3_entry f t) e).0 made in
      let long : 10 ≤ length f = (let k : ltb (length f) 10 ≡ false = g.0 in ground arith) in
      subst (IsEntryOf f) n.0 (s3_entry-IsEntryOf f t long reads n.1 n.2)

  IsEntryOf→s3_parse_fields :
      (f : List Str) (e : S3Entry) → IsEntryOf f e → s3_parse_fields clock f ≡ ok e
  unfolding s3_parse_fields
  IsEntryOf→s3_parse_fields f e h =
      let long : ltb (length f) 10 ≡ false = let k = h.enough in ground arith in
      let same = Describes-unique f e h.describes in
      rw (long, h.reads) (ap named same ∙ (named_iff e e).1 (refl, h.has_bucket, h.has_operation))

  -- A line is accepted as an entry exactly when its fields can be told apart, there are at least
  -- ten of them, the third is a time of the layout, and the bucket and the operation are logged.
  -- The entry then has that time, and each of its members comes from the field at its documented
  -- position, where a dash or a missing field gives nothing.
  pub s3_parse_iff :
      (line : Str) (e : S3Entry)
      → (s3_parse clock line ≡ ok e) ↔ ((f : List Str) × (s3_fields line ≡ ok f) × IsEntryOf f e)
  unfolding s3_parse
  s3_parse_iff line e = (
    λ h.
        let (f, split, made) = behind_fields (s3_fields line) (s3_parse_fields clock) e h in
        (f, split, s3_parse_fields→IsEntryOf f e made),
    λ (f, split, h). rw (s3_parse, split) (IsEntryOf→s3_parse_fields f e h),
  )
