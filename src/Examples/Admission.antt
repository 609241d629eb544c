-- ===== src/Examples/Admission.antt =====
-- The theorems about policy_admission.py at concrete inputs.
use workspace_governance_con.Prelude.{ℕ, ◌≤◌, ◌≡◌, ◌≢◌, ◌⊎◌, refl, ◌↔◌, true, none, some, []}
use workspace_governance_con.Value.{Fields, text, bool, dict, end, field, get}
use workspace_governance_con.Platform.{silent, optional_str}
use workspace_governance_con.Policy.Model.{Outcome, allow, waived, Waiver}
use workspace_governance_con.Policy.Read.{parse_timestamp, valid_waiver}
use workspace_governance_con.Policy.Evaluate.{moment, coerce_timestamp, read_subject}
use workspace_governance_con.Policy.Admissible.{
  IsAdmissible, IsIdentified, HasAuthority, IsValidated,
}
use workspace_governance_con.Policy.Decision.{
  Decides, evaluate_admission_policy-allow_iff, evaluate_admission_policy-waived_iff,
  evaluate_admission_policy-deny_iff, evaluate_admission_policy-actions_iff,
}
use workspace_governance_con.Policy.Actions.{valid_waiver_sound}

abbrev waiver_fields : Fields
waiver_fields = field "waiver_id" (text "waiver-1") (
    field "authority_ref_id" (text "authority-1")
      (field "reason" (text " outage ") (field "expires_at" (text "0001-01-01") end)))

abbrev subject : Fields
subject = field "subject_type" (text "repo") (
    field "subject_id" (text "control-fabric") (
      field "owner_repo" (text "control-fabric")
        (field "validation_required" (bool true) (field "waiver" (dict waiver_fields) end))))

abbrev waiver : Waiver
waiver = record {
  authority_ref_id = "authority-1";
  expires_at = "0001-01-01T00:00:00Z";
  reason = "outage";
  waiver_id = "waiver-1";
}

evaluate_admission_policy-allow_iff_example :
    Decides silent 3 subject "developer"
      (moment 0)
      (λ d. (d.outcome ≡ allow) ↔ IsAdmissible (read_subject silent subject 0))
unfolding coerce_timestamp
evaluate_admission_policy-allow_iff_example =
    evaluate_admission_policy-allow_iff silent 3 subject "developer" (moment 0) 0 refl

evaluate_admission_policy-waived_iff_example : Decides silent 3 subject "developer" (moment 0) (λ d.
    (d.outcome ≡ waived) ↔ (
      IsIdentified (read_subject silent subject 0)
      × HasAuthority (read_subject silent subject 0).authority
      × ((read_subject silent subject 0).validation_required ≡ true)
      × (¬ IsValidated (read_subject silent subject 0).receipts)
      × ((read_subject silent subject 0).waiver ≢ none)))
unfolding coerce_timestamp
evaluate_admission_policy-waived_iff_example =
    evaluate_admission_policy-waived_iff silent 3 subject "developer" (moment 0) 0 refl

evaluate_admission_policy-deny_iff_example :
    Decides silent 3 subject "developer"
      (moment 0)
      (λ d. (d.outcome ≡ Outcome.deny) ↔ (¬ IsIdentified (read_subject silent subject 0)))
unfolding coerce_timestamp
evaluate_admission_policy-deny_iff_example =
    evaluate_admission_policy-deny_iff silent 3 subject "developer" (moment 0) 0 refl

evaluate_admission_policy-actions_iff_example :
    Decides silent 3 subject "developer"
      (moment 0)
      (λ d. (d.required_actions ≡ []) ↔ ((d.outcome ≡ allow) ⊎ (d.outcome ≡ waived)))
unfolding coerce_timestamp
evaluate_admission_policy-actions_iff_example =
    evaluate_admission_policy-actions_iff silent 3 subject "developer" (moment 0) 0 refl

valid_waiver_sound_example :
    (optional_str silent (get waiver_fields "waiver_id") ≡ some "waiver-1")
    × (optional_str silent (get waiver_fields "authority_ref_id") ≡ some "authority-1")
    × (optional_str silent (get waiver_fields "reason") ≡ some "outage")
    × (t : ℕ) × (parse_timestamp silent (get waiver_fields "expires_at") ≡ some t)
    × (0 ≤ t)
    × ("0001-01-01T00:00:00Z" ≡ silent.iso_text t)
unfolding valid_waiver optional_str get parse_timestamp
valid_waiver_sound_example = valid_waiver_sound silent waiver_fields 0 waiver refl
