-- ===== src/Policy/Evaluate.antt =====
-- `evaluate_admission_policy` and `build_policy_ledger_event` of policy_admission.py.
use workspace_governance_con.Prelude.{
  ℕ, Bool, true, Option, none, some, List, ◌++◌, map, String, sorted_set,
}
use workspace_governance_con.Prelude.Text.{first_characters}
use workspace_governance_con.Value.{
  Value, Fields, null, text, list, dict, end, field, get, find, or_else, truthy, texts, from_list,
}
use workspace_governance_con.Platform.{Platform, optional_str}
use workspace_governance_con.Policy.Model.{
  Severity, deny, block, review, waive, Outcome, blocked, review_required, waived, allow,
  PolicyReason, AuthorityRef, ReceiptRef, Waiver, PolicyDecision, policy_decision_schema_version,
}
use workspace_governance_con.Policy.Read.{
  authority_refs, receipt_refs, valid_waiver, parse_timestamp, text_or,
}
use workspace_governance_con.Policy.Checks.{
  Finding, check_type, check_id, check_owner, check_authority, check_validation, outcome_of,
  actions,
}
use Prim.Native.String.{◌++◌ as ◌<>◌}

-- What the evaluation reads of a request.
pub record Subject : Type 0 where
  pub subject_type : Option String
  pub subject_id : Option String
  pub owner_repo : Option String
  pub authority : List AuthorityRef
  pub receipts : List ReceiptRef
  pub validation_required : Bool
  pub waiver : Option Waiver

abbrev required_by_default : Option Value → Bool
required_by_default none = true
required_by_default (some v) = truthy v

unfoldable pub read_subject : Platform → Fields → ℕ → Subject
unfolding optional_str or_else get find
read_subject p subject now = record {
  subject_type = optional_str p (or_else (get subject "subject_type") (get subject "type"));
  subject_id = optional_str p (or_else (get subject "subject_id") (get subject "id"));
  owner_repo = optional_str p (get subject "owner_repo");
  authority = authority_refs p (get subject "authority_refs");
  receipts = receipt_refs p (get subject "receipt_refs");
  validation_required = required_by_default (find subject "validation_required");
  waiver = valid_waiver p (get subject "waiver") now;
}

unfoldable pub findings_of : Subject → List Finding
findings_of s =
    check_type s.subject_type
    ++ (check_id s.subject_id
        ++ (check_owner s.owner_repo
            ++ (check_authority s.authority
                ++ check_validation s.validation_required s.receipts s.waiver)))

abbrev pub outcome_text : Outcome → String
outcome_text Outcome.deny = "deny"
outcome_text blocked = "blocked"
outcome_text review_required = "review_required"
outcome_text waived = "waived"
outcome_text allow = "allow"

abbrev severity_text : Severity → String
severity_text deny = "deny"
severity_text block = "block"
severity_text review = "review"
severity_text waive = "waive"

abbrev pub optional_text : Option String → Value
optional_text none = null
optional_text (some s) = text s

reason_record : PolicyReason → Value
reason_record r = dict (
    field "code" (text r.code)
      (field "detail" (text r.detail) (field "severity" (text (severity_text r.severity)) end)))

authority_record : AuthorityRef → Value
authority_record r = dict (
    field "authority_id" (text r.authority_id) (
      field "digest" (optional_text r.digest)
        (field "freshness_status" (text r.freshness_status) end)))

-- The key "outcome" is there only if the reader found one.
abbrev outcome_field : Option String → Fields
outcome_field none = end
outcome_field (some s) = field "outcome" (text s) end

unfoldable pub receipt_record : ReceiptRef → Value
receipt_record r = dict (
    field "digest" (text r.digest)
      (field "receipt_id" (text r.receipt_id) (outcome_field r.outcome)))

waiver_record : Option Waiver → Value
waiver_record none = null
waiver_record (some w) = dict (
    field "authority_ref_id" (text w.authority_ref_id) (
      field "expires_at" (text w.expires_at)
        (field "reason" (text w.reason) (field "waiver_id" (text w.waiver_id) end))))

-- `_target`
target_of : Option String → Option String → String
target_of none subject_id = "unknown"
target_of (some t) none = "unknown"
target_of (some t) (some i) = t <> ":" <> i

-- `_digest_json(value).removeprefix("sha256:")[:24]`
unfoldable pub digest_token : Platform → Value → String
unfolding first_characters
digest_token p value = first_characters 24 (p.sha256_hex (p.dumps value))

-- The decision, once the request and the time are read.
unfoldable pub decide : Platform → Subject → String → ℕ → PolicyDecision
unfolding target_of reason_record authority_record receipt_record waiver_record
decide p s profile_id now =
    let fs = findings_of s in
    let outcome = outcome_of fs in
    let required = sorted_set (actions fs) in
    let subject_id = text_or s.subject_id "unknown" in
    let subject_type = text_or s.subject_type "unknown" in
    let target = target_of s.subject_type s.subject_id in
    let payload : Value = dict (
      field "authority_refs" (list (from_list (map authority_record s.authority))) (
        field "decision_time" (text (p.iso_text now)) (
          field "outcome" (text (outcome_text outcome)) (
            field "profile_id" (text profile_id) (
              field "reasons" (list (from_list (map (λ f. reason_record f.reason) fs))) (
                field "receipt_refs" (list (from_list (map receipt_record s.receipts))) (
                  field "required_actions" (texts required) (
                    field "subject_id" (text subject_id) (
                      field "subject_type" (text subject_type) (
                        field "target" (text target)
                          (field "waiver" (waiver_record s.waiver) end))))))))))) in
    record {
      authority_refs = s.authority;
      decision_id = "policy-decision:" <> digest_token p payload;
      decision_time = p.iso_text now;
      outcome = outcome;
      profile_id = profile_id;
      reasons = map (λ (f : Finding). f.reason) fs;
      receipt_refs = s.receipts;
      required_actions = required;
      schema_version = policy_decision_schema_version;
      subject_id = subject_id;
      subject_type = subject_type;
      target = target;
      waiver = s.waiver;
    }

-- The argument `now`: left out, a `datetime`, or a text.
pub data Now : Type 0 where
  unset : Now
  moment : ℕ → Now
  written : String → Now

-- `_coerce_timestamp`, where `none` is the `ValueError` of a text that is no time; `clock` is
-- `datetime.now(UTC)`.
unfoldable pub coerce_timestamp : Platform → ℕ → Now → Option ℕ
unfolding parse_timestamp
coerce_timestamp p clock unset = some clock
coerce_timestamp p clock (moment t) = some t
coerce_timestamp p clock (written s) = parse_timestamp p (text s)

abbrev decide_at : Platform → Fields → String → Option ℕ → Option PolicyDecision
decide_at p subject profile_id none = none
decide_at p subject profile_id (some now) =
    some (decide p (read_subject p subject now) profile_id now)

unfoldable pub evaluate_admission_policy :
    Platform → ℕ → Fields → String → Now → Option PolicyDecision
unfolding decide coerce_timestamp read_subject
evaluate_admission_policy p clock subject profile_id now =
    decide_at p subject profile_id (coerce_timestamp p clock now)

pub record LedgerEvent : Type 0 where
  pub action : String
  pub actor : String
  pub event_id : String
  pub event_time : String
  pub outcome : String
  pub receipt_refs : List ReceiptRef
  pub schema_version : ℕ
  pub target : String

-- The event has no artifact references.
unfoldable pub build_policy_ledger_event : Platform → String → PolicyDecision → LedgerEvent
unfolding receipt_record
build_policy_ledger_event p actor decision =
    let payload : Value = dict (
      field "action" (text "policy.decision.recorded") (
        field "actor" (text actor) (
          field "decision_id" (text decision.decision_id) (
            field "event_time" (text decision.decision_time) (
              field "outcome" (text (outcome_text decision.outcome)) (
                field "receipt_refs" (list (from_list (map receipt_record decision.receipt_refs)))
                  (field "target" (text decision.target) end))))))) in
    record {
      action = "policy.decision.recorded";
      actor = actor;
      event_id = "ledger-event:" <> digest_token p payload;
      event_time = decision.decision_time;
      outcome = outcome_text decision.outcome;
      receipt_refs = decision.receipt_refs;
      schema_version = 1;
      target = decision.target;
    }
