-- ===== src/Policy/Actions.antt =====
-- The required actions of a decision of policy_admission.py, and the waiver that it accepts.
use workspace_governance_con.Prelude.{
  ℕ, ◌≤◌, ◌≡◌, refl, ◌↔◌, ◌⊎◌, inl, inr, Bool, true, false, not, ◌||◌, Option, none, some, List, [],
  ◌∷◌, String, arith, sorted_set, sorted_set-nil_iff, ap, ◌∙◌, sym, Option-cases,
}
use workspace_governance_con.Value.{Fields, dict, get}
use workspace_governance_con.Platform.{Platform, optional_str}
use workspace_governance_con.Policy.Model.{waived, allow, PolicyReason, AuthorityRef, Waiver}
use workspace_governance_con.Policy.Read.{valid_waiver, parse_timestamp}
use workspace_governance_con.Policy.Checks.{
  Finding, outcome_of, actions, validation_reason, type_supported,
}
use workspace_governance_con.Policy.Evaluate.{Subject, findings_of}
use workspace_governance_con.Policy.Flags.{
  Flags, flags, has_actions, either, denied, is_none, authority_flags, validation_flags,
}
use workspace_governance_con.Policy.Verdict.{
  subject_flags, outcome_of_flags, outcome_of-flags, flags-findings_of,
}

-- An action goes with every denial, block and review, and with nothing else.
abbrev Consistent : Flags → Type 0
Consistent f = f.acts ≡ (f.denies || (f.blocks || f.reviews))

either-Consistent :
    (t i o : Bool) (a v : Flags)
    → Consistent a
    → Consistent v
    → Consistent (either (denied t) (either (denied i) (either (denied o) (either a v))))
either-Consistent t i o a v h k = ground arith

authority-Consistent : (refs : List AuthorityRef) → Consistent (authority_flags refs)
authority-Consistent [] = refl
authority-Consistent (r ∷ refs) = ground arith

validation-Consistent :
    (b : Bool) (r : Option PolicyReason) (w : Option Waiver) → Consistent (validation_flags b r w)
validation-Consistent false r w = refl
validation-Consistent true none w = refl
validation-Consistent true (some r) (some w) = refl
validation-Consistent true (some r) none = ground arith

subject-Consistent : (s : Subject) → Consistent (subject_flags s)
subject-Consistent s =
    either-Consistent (not (type_supported s.subject_type)) (is_none s.subject_id)
      (is_none s.owner_repo) (authority_flags s.authority)
      (validation_flags s.validation_required (validation_reason s.receipts) s.waiver)
      (authority-Consistent s.authority)
      (validation-Consistent s.validation_required (validation_reason s.receipts) s.waiver)

nil_test :
    (xs : List String)
    → ((elim xs as (λ _. Bool) [ [] ↦ false | _ ∷ _ ↦ true ]) ≡ false) ↔ (xs ≡ [])
nil_test [] = ((λ _. refl), λ _. refl)
nil_test (x ∷ xs) = ((λ h. cc), λ h. cc)

has_actions-false_iff : (fs : List Finding) → (has_actions fs ≡ false) ↔ (actions fs ≡ [])
has_actions-false_iff fs = nil_test (actions fs)

acts-outcome :
    (f : Flags)
    → Consistent f
    → (f.acts ≡ false) ↔ ((outcome_of_flags f ≡ allow) ⊎ (outcome_of_flags f ≡ waived))
acts-outcome f c = ((λ h. ground arith), λ h. ground arith)

acts-subject : (s : Subject) → has_actions (findings_of s) ≡ (subject_flags s).acts
unfolding flags
acts-subject s = ap (λ (f : Flags). f.acts) (flags-findings_of s)

-- A request has nothing left to do exactly when it is admitted, plainly or by a waiver.
pub actions-nil_iff :
    (s : Subject)
    → (sorted_set (actions (findings_of s)) ≡ [])
      ↔ ((outcome_of (findings_of s) ≡ allow) ⊎ (outcome_of (findings_of s) ≡ waived))
actions-nil_iff s =
    let sorted = sorted_set-nil_iff (actions (findings_of s)) in
    let acts = has_actions-false_iff (findings_of s) in
    let same = acts-subject s in
    let out = acts-outcome (subject_flags s) (subject-Consistent s) in
    rw (outcome_of-flags s)
      ((λ h. out.0 (sym same ∙ acts.1 (sorted.0 h))), λ h. sorted.1 (acts.0 (same ∙ out.1 h)))

-- An accepted waiver names itself, its authority and its reason, and its expiry is a time that is not
-- before the time of the decision.
pub valid_waiver_sound :
    (p : Platform) (value : Fields) (now : ℕ) (w : Waiver)
    → valid_waiver p (dict value) now ≡ some w
    → (optional_str p (get value "waiver_id") ≡ some w.waiver_id)
      × (optional_str p (get value "authority_ref_id") ≡ some w.authority_ref_id)
      × (optional_str p (get value "reason") ≡ some w.reason)
      × (t : ℕ) × (parse_timestamp p (get value "expires_at") ≡ some t)
      × (now ≤ t)
      × (w.expires_at ≡ p.iso_text t)
unfolding valid_waiver
valid_waiver_sound p value now w h =
    elim (Option-cases (parse_timestamp p (get value "expires_at"))) [
      | inl e ↦ absurd (ground arith)
      | inr (t, e) ↦ (ground arith, ground arith, ground arith, t, e, ground arith, ground arith)
    ]
