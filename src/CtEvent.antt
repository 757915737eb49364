-- ===== src/CtEvent.antt =====
-- internal/ctevent/record.go: the CloudTrail record. A pointer is an Option, and raw JSON is
-- kept as its bytes. Decoding (gzip and encoding/json) is left out.
pub mod Laws
use ctaudit.Prelude.{
  Bool, true, false, not, Option, none, some, List, [], ◌∷◌, if◌then◌else◌, any_of,
}
use ctaudit.Text.{Str, codes, nonempty, has_prefix, trim_suffix}
use ctaudit.Instant.{Time}

abbrev pub RawMessage : Type 0
RawMessage = Str

pub record SessionAttributes : Type 0 where
  pub mfa_authenticated : Str
  pub creation_date : Str

pub record SessionIssuer : Type 0 where
  pub type : Str
  pub arn : Str
  pub user_name : Str
  pub account_id : Str

pub record SessionContext : Type 0 where
  pub attributes : SessionAttributes
  pub session_issuer : Option SessionIssuer

pub record UserIdentity : Type 0 where
  pub type : Str
  pub principal_id : Str
  pub arn : Str
  pub account_id : Str
  pub access_key_id : Str
  pub user_name : Str
  pub invoked_by : Str
  pub session_context : Option SessionContext

pub record Resource : Type 0 where
  pub arn : Str
  pub account_id : Str
  pub type : Str

pub record Record : Type 0 where
  pub event_version : Str
  pub event_time : Time
  pub event_source : Str
  pub event_name : Str
  pub aws_region : Str
  pub source_ip_address : Str
  pub user_agent : Str
  pub error_code : Str
  pub error_message : Str
  pub event_id : Str
  pub event_type : Str
  pub read_only : Option Bool
  pub management_event : Option Bool
  pub event_category : Str
  pub recipient_account_id : Str
  pub user_identity : UserIdentity
  pub resources : List Resource
  pub request_parameters : RawMessage
  pub response_elements : RawMessage
  pub additional_event_data : RawMessage

-- r.Actor()
unfoldable pub actor : Record → Str
actor r =
    let u = r.user_identity in
    if nonempty u.arn
    then u.arn
    else if nonempty u.invoked_by
    then u.invoked_by
    else if nonempty u.user_name
    then u.user_name
    else if nonempty u.principal_id
    then u.principal_id
    else codes "unknown"

abbrev pub aws_suffix : Str
aws_suffix = codes ".amazonaws.com"

-- r.ServiceName()
unfoldable pub service_name : Record → Str
service_name r = trim_suffix r.event_source aws_suffix

unfoldable pub read_only_prefixes : List Str
read_only_prefixes =
    codes "Describe"
    ∷ codes "Get"
    ∷ codes "List"
    ∷ codes "Lookup"
    ∷ codes "Search"
    ∷ codes "Query"
    ∷ codes "Head"
    ∷ codes "BatchGet"
    ∷ codes "Scan"
    ∷ codes "Select"
    ∷ codes "Assume"
    ∷ codes "Filter"
    ∷ codes "Estimate"
    ∷ codes "Validate"
    ∷ codes "Preview"
    ∷ codes "Simulate"
    ∷ codes "Check"
    ∷ codes "Test"
    ∷ codes "View"
    ∷ codes "Read"
    ∷ codes "Discover"
    ∷ codes "Resolve"
    ∷ []

-- The loop of r.IsWrite().
has_any_prefix : Str → List Str → Bool
has_any_prefix name ps = any_of (λ p. has_prefix name p) ps

-- r.IsWrite()
unfoldable pub is_write : Record → Bool
unfolding has_any_prefix
is_write r = elim r.read_only [
  | some ro ↦ not ro
  | none ↦ if has_any_prefix r.event_name read_only_prefixes then false else nonempty r.event_name
]
