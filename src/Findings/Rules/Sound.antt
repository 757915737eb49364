-- ===== src/Findings/Rules/Sound.antt =====
-- What the built-in rules report.
use ctaudit.Prelude.{true, false, ◌≡◌, refl, none, some, [], arith, All, is_some, ◌↔◌}
use ctaudit.Text.{codes, str_eq, has_prefix}
use ctaudit.Text.Laws.{str_eq_iff, nonempty_iff}
use ctaudit.CtEvent.{Record, actor}
use ctaudit.Findings.{sev_high, Finding, Rule, new_finding}
use ctaudit.Findings.Rules.{
  Unmarshal, raw_field, iam_mutation_prefixes, check_root_usage, check_access_denied,
  is_iam_mutation, check_iam_mutation, check_sg_open_ingress, check_console_no_mfa,
  check_console_login_failed, check_access_key_created, check_cloudtrail_tamper, check_s3_exposure,
  check_kms_destruction, default_rules,
}

-- A finding names the rule that raised it, and says who did it, where and when as the record does.
abbrev pub Describes : Record → Rule → Type 0
Describes r rule =
    (f : Finding)
    → rule.check r ≡ some f
    → (f.rule ≡ rule.id)
      × (f.actor ≡ actor r)
      × (f.account ≡ r.recipient_account_id)
      × (f.region ≡ r.aws_region)
      × (f.event_id ≡ r.event_id)
      × (f.time ≡ r.event_time)

-- Every finding of every built-in rule names its rule and describes its record.
pub default_rules-Describes :
    (json : Unmarshal) (r : Record) → All (Describes r) (default_rules json)
unfolding default_rules new_finding check_root_usage check_console_no_mfa check_console_login_failed
    check_access_denied check_iam_mutation check_access_key_created check_cloudtrail_tamper
    check_s3_exposure check_sg_open_ingress check_kms_destruction
default_rules-Describes json r = (
  λ f h. ground arith,
  (
    λ f h. ground arith,
    (
      λ f h. ground arith,
      (
        λ f h. ground arith,
        (
          λ f h. ground arith,
          (
            λ f h. ground arith,
            (
              λ f h. ground arith,
              (λ f h. ground arith, (λ f h. ground arith, (λ f h. ground arith, tt))),
            ),
          ),
        ),
      ),
    ),
  ),
)

-- Root activity is reported exactly when the root user acts and no service acts for it.
root_usage_iff :
    (r : Record)
    → (is_some (check_root_usage r) ≡ true)
      ↔ ((r.user_identity.type ≡ codes "Root") × (r.user_identity.invoked_by ≡ []))
unfolding check_root_usage
root_usage_iff r =
    ground (
      arith,
      str_eq_iff r.user_identity.type (codes "Root"),
      nonempty_iff r.user_identity.invoked_by,
    )

Success≢Failure : str_eq (codes "Success") (codes "Failure") ≡ false
unfolding str_eq codes
Success≢Failure = refl

-- One console login is never reported both as a success without MFA and as a failure.
console_login_exclusive :
    (json : Unmarshal) (r : Record)
    → is_some (check_console_no_mfa json r) ≡ true
    → check_console_login_failed json r ≡ none
unfolding check_console_no_mfa check_console_login_failed
console_login_exclusive json r h =
    let outcome = raw_field json r.response_elements (codes "ConsoleLogin") in
    ground (
      arith,
      str_eq_iff outcome (codes "Success"),
      str_eq_iff outcome (codes "Failure"),
      str_eq_iff (codes "Success") (codes "Failure"),
      Success≢Failure,
    )

CreateAccessKey-is_iam_mutation : is_iam_mutation (codes "CreateAccessKey") ≡ true
unfolding is_iam_mutation iam_mutation_prefixes has_prefix codes
CreateAccessKey-is_iam_mutation = refl

-- A created access key is reported twice: as a high finding of its own rule, and as a change of
-- the IAM configuration.
access_key_created_twice :
    (json : Unmarshal) (r : Record) (f : Finding)
    → check_access_key_created json r ≡ some f
    → (f.severity ≡ sev_high) × (is_some (check_iam_mutation r) ≡ true)
unfolding check_access_key_created check_iam_mutation new_finding
access_key_created_twice json r f h =
    ground
      (arith, str_eq_iff r.event_name (codes "CreateAccessKey"), CreateAccessKey-is_iam_mutation)
