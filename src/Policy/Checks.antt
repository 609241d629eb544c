-- ===== src/Policy/Checks.antt =====
-- The checks of `evaluate_admission_policy` in policy_admission.py. Each yields the reason that the source
-- appends and the action that it appends with it.
use workspace_governance_con.Prelude.{
  Bool, true, false, not, ◌||◌, Option, none, some, List, [], ◌∷◌, ◌++◌, String, contains, str_eq,
  if◌then◌else◌,
}
use workspace_governance_con.Prelude.Text.{lower, strip}
use workspace_governance_con.Platform.{some_text}
use workspace_governance_con.Policy.Model.{
  Severity, deny, block, review, waive, Outcome, blocked, review_required, waived, allow,
  PolicyReason, AuthorityRef, ReceiptRef, Waiver, supported_subject_types,
  successful_receipt_outcomes, failed_receipt_outcomes,
}
use workspace_governance_con.Policy.Read.{text_or}
use Prim.Native.String.{◌++◌ as ◌<>◌}

-- A reason with the action that is required with it, if there is one.
pub record Finding : Type 0 where
  pub reason : PolicyReason
  pub action : Option String

abbrev because : String → String → Severity → PolicyReason
because code detail severity = record { code = code; detail = detail; severity = severity }

abbrev finding : PolicyReason → String → List Finding
finding reason action = record { reason = reason; action = some action } ∷ []

unfoldable pub type_supported : Option String → Bool
unfolding contains
type_supported none = false
type_supported (some t) = contains t supported_subject_types

unfoldable pub check_type : Option String → List Finding
unfolding type_supported
check_type subject_type =
    if type_supported subject_type
    then []
    else finding
        (because "unsupported-subject-type"
          "policy admission currently supports repo and component subjects" deny)
        "route subject through an approved intake contract"

unfoldable pub check_id : Option String → List Finding
check_id (some _) = []
check_id none =
    finding (because "missing-subject-id" "subject_id is required for admission decisions" deny)
      "provide a stable subject id"

unfoldable pub check_owner : Option String → List Finding
check_owner (some _) = []
check_owner none =
    finding (because "missing-owner-repo" "owner_repo is required before admission" deny)
      "declare an owner repo in upstream authority"

-- The freshness that the loop reads of one reference.
unfoldable pub freshness : AuthorityRef → String
unfolding some_text strip text_or
freshness ref = text_or (some_text (strip ref.freshness_status)) "unknown"

unfoldable pub is_current : AuthorityRef → Bool
unfolding freshness
is_current ref = str_eq (lower (freshness ref)) "current"

unfoldable pub check_freshness : List AuthorityRef → List Finding
check_freshness [] = []
check_freshness (ref ∷ refs) =
    (if is_current ref
      then []
      else finding
          (because "stale-authority-ref"
            ("authority ref " <> ref.authority_id <> " is " <> freshness ref) block)
          "refresh authority refs before admission")
    ++ check_freshness refs

unfoldable pub check_authority : List AuthorityRef → List Finding
unfolding check_freshness
check_authority [] =
    finding
      (because "missing-authority-ref" "at least one upstream authority ref is required" review)
      "link the subject to workspace-governance authority refs"
check_authority (ref ∷ refs) = check_freshness (ref ∷ refs)

-- The outcome that the loop reads of one receipt.
unfoldable pub receipt_outcome : ReceiptRef → Option String
unfolding some_text strip text_or
receipt_outcome ref = some_text (strip (text_or ref.outcome ""))

-- What the loop of `_validation_reason` does with the outcome of one receipt.
unfoldable pub receipt_reason : String → Option String → Option PolicyReason
receipt_reason receipt_id none = none
receipt_reason receipt_id (some outcome) =
    if contains (lower outcome) failed_receipt_outcomes
    then some (
        because "validation-receipt-not-successful"
          ("receipt " <> receipt_id <> " outcome is " <> outcome) block)
    else if not (contains (lower outcome) successful_receipt_outcomes)
    then some (
        because "validation-receipt-unknown-outcome"
          ("receipt " <> receipt_id <> " outcome is " <> outcome) review)
    else none

abbrev pub or_next {ℓ} : {A : Type ℓ} → Option A → Option A → Option A
or_next none next = next
or_next (some a) next = some a

unfoldable pub first_reason : List ReceiptRef → Option PolicyReason
first_reason [] = none
first_reason (ref ∷ refs) =
    or_next (receipt_reason ref.receipt_id (receipt_outcome ref)) (first_reason refs)

unfoldable pub validation_reason : List ReceiptRef → Option PolicyReason
unfolding first_reason
validation_reason [] = some (
    because "missing-validation-receipt" "validation is required but no receipt ref was supplied"
      review)
validation_reason (ref ∷ refs) = first_reason (ref ∷ refs)

unfoldable pub waive_or_report : PolicyReason → Option Waiver → List Finding
waive_or_report reason none =
    finding reason "provide a successful receipt or explicit approved waiver"
waive_or_report reason (some waiver) =
    record {
      reason =
          because "validation-waived"
            ("validation issue " <> reason.code <> " is covered by waiver " <> waiver.waiver_id)
            waive;
      action = none;
    }
    ∷ []

abbrev pub report : Option PolicyReason → Option Waiver → List Finding
report none waiver = []
report (some reason) waiver = waive_or_report reason waiver

unfoldable pub check_validation : Bool → List ReceiptRef → Option Waiver → List Finding
unfolding waive_or_report
check_validation required receipts waiver =
    if required then report (validation_reason receipts) waiver else []

abbrev same_severity : Severity → Severity → Bool
same_severity deny deny = true
same_severity block block = true
same_severity review review = true
same_severity waive waive = true
same_severity _ _ = false

-- `severity in {reason.severity for reason in reasons}`
unfoldable pub has : Severity → List Finding → Bool
has severity [] = false
has severity (f ∷ fs) = same_severity severity f.reason.severity || has severity fs

-- `_outcome`
unfoldable pub outcome_of : List Finding → Outcome
outcome_of fs =
    if has deny fs
    then Outcome.deny
    else if has block fs
    then blocked
    else if has review fs
    then review_required
    else if has waive fs
    then waived
    else allow

unfoldable pub actions : List Finding → List String
actions [] = []
actions (f ∷ fs) = elim f.action [ none ↦ actions fs | some a ↦ a ∷ actions fs ]
