-- ===== src/Findings/Rules.antt =====
-- DefaultRules of internal/findings/rules.go. A detail is the text that fmt.Sprintf builds.
pub mod Sound
use ctaudit.Prelude.{
  Bool, true, false, not, ◌&&◌, ◌||◌, Option, none, some, List, [], ◌∷◌, ◌++◌, if◌then◌else◌,
  any_of,
}
use ctaudit.Text.{Str, codes, str_eq, nonempty, has_prefix, contains, trim_space}
use ctaudit.Map.{find, str_comparable}
use ctaudit.CtEvent.{RawMessage, Record, actor, service_name}
use ctaudit.Findings.{
  Severity, sev_low, sev_medium, sev_high, sev_critical, Finding, Rule, new_finding,
}

-- encoding/json's Unmarshal, at the two types that the rules decode: an object into its raw
-- members, and a text. `none` is its error.
pub record Unmarshal : Type 0 where
  pub members : RawMessage → Option (List (Str × RawMessage))
  pub text : RawMessage → Option Str

-- isOneOf
unfoldable pub is_one_of : Str → List Str → Bool
is_one_of value options = any_of (λ o. str_eq value o) options

unfoldable pub iam_mutation_prefixes : List Str
iam_mutation_prefixes =
    codes "Create"
    ∷ codes "Delete"
    ∷ codes "Put"
    ∷ codes "Update"
    ∷ codes "Attach"
    ∷ codes "Detach"
    ∷ codes "Add"
    ∷ codes "Remove"
    ∷ codes "Set"
    ∷ codes "Tag"
    ∷ codes "Untag"
    ∷ codes "Change"
    ∷ codes "Enable"
    ∷ codes "Disable"
    ∷ codes "Upload"
    ∷ []

unfoldable pub check_root_usage : Record → Option Finding
check_root_usage r =
    if not (str_eq r.user_identity.type (codes "Root"))
    then none
    else if nonempty r.user_identity.invoked_by
    then none
    else some (
        new_finding (codes "root-usage") sev_critical (codes "Root account activity")
          (codes "Root account used for " ++ (r.event_name ++ (codes " in " ++ r.aws_region))) r)

unfoldable pub check_access_denied : Record → Option Finding
check_access_denied r =
    if not (
      is_one_of r.error_code (
        codes "AccessDenied"
        ∷ codes "AccessDeniedException"
        ∷ codes "UnauthorizedOperation"
        ∷ codes "Client.UnauthorizedOperation"
        ∷ []))
    then none
    else some (
        new_finding (codes "access-denied") sev_low (codes "Authorization failure")
          (r.error_code
            ++ (codes " denied on "
                ++ (r.event_name ++ (codes " (" ++ (service_name r ++ codes ")")))))
          r)

unfoldable pub is_iam_mutation : Str → Bool
is_iam_mutation name = any_of (λ p. has_prefix name p) iam_mutation_prefixes

unfoldable pub check_iam_mutation : Record → Option Finding
check_iam_mutation r =
    if not (str_eq (service_name r) (codes "iam"))
    then none
    else if not (is_iam_mutation r.event_name)
    then none
    else some (
        new_finding (codes "iam-mutation") sev_medium (codes "IAM configuration changed")
          (r.event_name ++ (codes " in " ++ r.aws_region)) r)

unfoldable pub check_sg_open_ingress : Record → Option Finding
check_sg_open_ingress r =
    if not (str_eq (service_name r) (codes "ec2"))
      || not (str_eq r.event_name (codes "AuthorizeSecurityGroupIngress"))
    then none
    else if not (contains r.request_parameters (codes "0.0.0.0/0"))
        && not (contains r.request_parameters (codes "::/0"))
    then none
    else some (
        new_finding (codes "sg-open-ingress") sev_high
          (codes "Security group opened to the internet")
          (codes "AuthorizeSecurityGroupIngress with 0.0.0.0/0") r)

module _ (json : Unmarshal) where
  -- rawField
  unfoldable pub raw_field : RawMessage → Str → Str
  raw_field raw field = if not (nonempty raw) then [] else elim (json.members raw) [
    | none ↦ []
    | some m ↦ elim (find field m) [
      | none ↦ []
      | some v ↦ elim (json.text v) [ none ↦ [] | some s ↦ s ]
    ]
  ]

  unfoldable pub check_console_no_mfa : Record → Option Finding
  check_console_no_mfa r =
      if not (str_eq r.event_name (codes "ConsoleLogin"))
      then none
      else if not (str_eq (raw_field r.response_elements (codes "ConsoleLogin")) (codes "Success"))
      then none
      else if not (str_eq (raw_field r.additional_event_data (codes "MFAUsed")) (codes "No"))
      then none
      else some (
          new_finding (codes "console-no-mfa") sev_high (codes "Console login without MFA")
            (codes "ConsoleLogin succeeded without MFA from " ++ r.source_ip_address) r)

  unfoldable pub check_console_login_failed : Record → Option Finding
  check_console_login_failed r =
      if not (str_eq r.event_name (codes "ConsoleLogin"))
      then none
      else if not (str_eq (raw_field r.response_elements (codes "ConsoleLogin")) (codes "Failure"))
      then none
      else some (
          new_finding (codes "console-login-failed") sev_medium (codes "Failed console login")
            (codes "Failed console login from " ++ r.source_ip_address) r)

  unfoldable pub check_access_key_created : Record → Option Finding
  check_access_key_created r =
      let target = raw_field r.request_parameters (codes "userName") in
      if not (str_eq (service_name r) (codes "iam"))
        || not (str_eq r.event_name (codes "CreateAccessKey"))
      then none
      else some (
          new_finding (codes "access-key-created") sev_high (codes "Access key created")
            (codes "Long-lived access key created for "
              ++ (if nonempty target then target else codes "the calling identity"))
            r)

  unfoldable pub check_cloudtrail_tamper : Record → Option Finding
  check_cloudtrail_tamper r =
      if not (str_eq (service_name r) (codes "cloudtrail"))
      then none
      else if not (
          is_one_of r.event_name (
            codes "StopLogging"
            ∷ codes "DeleteTrail"
            ∷ codes "UpdateTrail"
            ∷ codes "PutEventSelectors"
            ∷ codes "DeleteEventDataStore"
            ∷ []))
      then none
      else some (
          new_finding (codes "cloudtrail-tamper") sev_critical
            (codes "CloudTrail configuration changed")
            (trim_space (
              r.event_name
              ++ (codes " on trail " ++ raw_field r.request_parameters (codes "name"))))
            r)

  unfoldable pub check_s3_exposure : Record → Option Finding
  check_s3_exposure r =
      if not (str_eq (service_name r) (codes "s3"))
      then none
      else if not (
          is_one_of r.event_name (
            codes "PutBucketPolicy"
            ∷ codes "DeleteBucketPolicy"
            ∷ codes "PutBucketAcl"
            ∷ codes "PutBucketPublicAccessBlock"
            ∷ codes "DeletePublicAccessBlock"
            ∷ codes "PutAccountPublicAccessBlock"
            ∷ []))
      then none
      else some (
          new_finding (codes "s3-exposure") sev_high (codes "S3 bucket exposure setting changed")
            (trim_space (
              r.event_name
              ++ (codes " on bucket " ++ raw_field r.request_parameters (codes "bucketName"))))
            r)

  unfoldable pub check_kms_destruction : Record → Option Finding
  check_kms_destruction r =
      if not (str_eq (service_name r) (codes "kms"))
      then none
      else if not (
          is_one_of r.event_name (
            codes "DisableKey"
            ∷ codes "ScheduleKeyDeletion"
            ∷ codes "DeleteAlias"
            ∷ codes "DisableKeyRotation"
            ∷ []))
      then none
      else some (
          new_finding (codes "kms-destruction") sev_high (codes "KMS key availability reduced")
            (trim_space (
              r.event_name ++ (codes " on key " ++ raw_field r.request_parameters (codes "keyId"))))
            r)

  -- DefaultRules()
  unfoldable pub default_rules : List Rule
  default_rules =
      record { id = codes "root-usage"; check = check_root_usage }
      ∷ record { id = codes "console-no-mfa"; check = check_console_no_mfa }
      ∷ record { id = codes "console-login-failed"; check = check_console_login_failed }
      ∷ record { id = codes "access-denied"; check = check_access_denied }
      ∷ record { id = codes "iam-mutation"; check = check_iam_mutation }
      ∷ record { id = codes "access-key-created"; check = check_access_key_created }
      ∷ record { id = codes "cloudtrail-tamper"; check = check_cloudtrail_tamper }
      ∷ record { id = codes "s3-exposure"; check = check_s3_exposure }
      ∷ record { id = codes "sg-open-ingress"; check = check_sg_open_ingress }
      ∷ record { id = codes "kms-destruction"; check = check_kms_destruction }
      ∷ []
