-- ===== src/S3Log.antt =====
-- internal/s3log: server access logs of S3. The layout of time.Parse is a parameter of the parser.
pub mod Tokens
pub mod Keys
pub mod Parse
pub mod Clean
pub mod Accepts
pub mod Select
pub mod Selects
use ctaudit.Prelude.{
  ℕ, Word, Bool, List, [], ◌∷◌, if◌then◌else◌, any_of, slt, ◌/◌, ◌++◌, ◌||◌, ◌&&◌, not, eqb,
}
use ctaudit.Text.{Str, codes, str_eq, nonempty}
use ctaudit.Text.Decimal.{format}
use ctaudit.Instant.{Time}

-- Why a line is refused.
pub data LineFault : Type 0 where
  unterminated_bracket unterminated_quote bad_time missing_name : LineFault
  too_few : ℕ → LineFault

pub record S3Entry : Type 0 where
  pub time : Time
  pub bucket : Str
  pub remote_ip : Str
  pub requester : Str
  pub request_id : Str
  pub operation : Str
  pub key : Str
  pub method : Str
  pub path : Str
  pub proto : Str
  pub status : Word
  pub error_code : Str
  pub bytes_sent : Word
  pub object_size : Word
  pub total_time_ms : Word
  pub turnaround_ms : Word
  pub referer : Str
  pub user_agent : Str
  pub sig_version : Str
  pub cipher_suite : Str
  pub auth_type : Str
  pub host_header : Str
  pub tls_version : Str
  pub access_point_arn : Str
  pub acl_required : Bool
  pub plain_http : Bool

abbrev pub one_of : List Str → Str → Bool
one_of names s = any_of (λ n. str_eq n s) names

unfoldable pub write_ops : List Str
unfolding codes
write_ops =
    codes "REST.PUT.OBJECT"
    ∷ codes "REST.POST.OBJECT"
    ∷ codes "REST.COPY.OBJECT"
    ∷ codes "REST.POST.UPLOADS"
    ∷ codes "REST.PUT.PART"
    ∷ codes "REST.COPY.PART"
    ∷ codes "REST.POST.UPLOAD"
    ∷ []

unfoldable pub delete_ops : List Str
unfolding codes
delete_ops = codes "REST.DELETE.OBJECT" ∷ codes "BATCH.DELETE.OBJECT" ∷ []

unfoldable pub read_ops : List Str
unfolding codes
read_ops =
    codes "REST.GET.OBJECT"
    ∷ codes "REST.HEAD.OBJECT"
    ∷ codes "REST.GET.BUCKET"
    ∷ codes "REST.GET.BUCKETVERSIONS"
    ∷ codes "REST.COPY.OBJECT_GET"
    ∷ []

unfoldable pub access_ops : List Str
unfolding codes
access_ops =
    codes "REST.PUT.BUCKETPOLICY"
    ∷ codes "REST.DELETE.BUCKETPOLICY"
    ∷ codes "REST.PUT.ACL"
    ∷ codes "REST.PUT.PUBLIC_ACCESS_BLOCK"
    ∷ codes "REST.DELETE.PUBLIC_ACCESS_BLOCK"
    ∷ []

abbrev pub anonymous : Str
anonymous = codes "anonymous"

unfoldable pub s3_principal : S3Entry → Str
s3_principal e = if nonempty e.requester then e.requester else anonymous

-- A status at least 200 and less than 600, in the order of Go's int.
unfoldable pub s3_status_class : S3Entry → Str
unfolding codes
s3_status_class e =
    if not (slt e.status 200) && slt e.status 600
    then format (e.status / 100) ++ codes "xx"
    else codes "other"

unfoldable pub s3_success : S3Entry → Bool
s3_success e = not (slt e.status 200) && slt e.status 300

unfoldable pub s3_is_error : S3Entry → Bool
s3_is_error e = not (slt e.status 400) || nonempty e.error_code

unfoldable pub s3_denied : S3Entry → Bool
unfolding codes
s3_denied e = eqb e.status 403 || str_eq e.error_code (codes "AccessDenied")

unfoldable pub is_object_write : S3Entry → Bool
is_object_write e = one_of write_ops e.operation

unfoldable pub is_object_delete : S3Entry → Bool
is_object_delete e = one_of delete_ops e.operation

unfoldable pub is_multi_delete : S3Entry → Bool
unfolding codes
is_multi_delete e = str_eq e.operation (codes "REST.POST.MULTI_OBJECT_DELETE")

unfoldable pub is_object_read : S3Entry → Bool
is_object_read e = one_of read_ops e.operation

unfoldable pub is_access_change : S3Entry → Bool
is_access_change e = one_of access_ops e.operation

unfoldable pub s3_weak_tls : S3Entry → Bool
unfolding codes
s3_weak_tls e = one_of (codes "TLSv1" ∷ codes "TLSv1.0" ∷ codes "TLSv1.1" ∷ []) e.tls_version

unfoldable pub sig_v2 : S3Entry → Bool
unfolding codes
sig_v2 e = str_eq e.sig_version (codes "SigV2")
