-- ===== src/Policy/Decision.antt =====
-- What the outcome of `evaluate_admission_policy` in policy_admission.py says of the request.
use workspace_governance_con.Prelude.{
  ℕ, ◌≡◌, refl, ◌≢◌, ◌↔◌, ◌⊎◌, inl, inr, true, false, Option, none, some, [], String, arith,
  Bool-cases,
}
use workspace_governance_con.Value.{Fields}
use workspace_governance_con.Platform.{Platform}
use workspace_governance_con.Policy.Model.{Outcome, waived, allow, PolicyDecision}
use workspace_governance_con.Policy.Checks.{outcome_of}
use workspace_governance_con.Policy.Evaluate.{
  Subject, findings_of, read_subject, decide, Now, coerce_timestamp, evaluate_admission_policy,
}
use workspace_governance_con.Policy.Flags.{Flags}
use workspace_governance_con.Policy.Admissible.{
  IsIdentified, HasAuthority, IsValidated, IsAdmissible, validation_reason-none_iff,
}
use workspace_governance_con.Policy.Actions.{actions-nil_iff}
use workspace_governance_con.Policy.Verdict.{
  subject_flags, outcome_of_flags, outcome_of-flags, issue, QuietBelow, quiet_iff, IsIdentified-iff,
  authority_quiet, validation_waives_iff,
}

allow_flags : (f : Flags) → (outcome_of_flags f ≡ allow) ↔ (QuietBelow f × (f.waives ≡ false))
allow_flags f = ((λ h. ground arith), λ h. ground arith)

waived_flags : (f : Flags) → (outcome_of_flags f ≡ waived) ↔ (QuietBelow f × (f.waives ≡ true))
waived_flags f = ((λ h. ground arith), λ h. ground arith)

deny_flags : (f : Flags) → (outcome_of_flags f ≡ Outcome.deny) ↔ (f.denies ≡ true)
deny_flags f = ((λ h. ground arith), λ h. ground arith)

waives_iff :
    (s : Subject)
    → ((subject_flags s).waives ≡ true)
      ↔ ((s.validation_required ≡ true) × (issue s ≢ none) × (s.waiver ≢ none))
waives_iff s =
    let v = validation_waives_iff s.validation_required (issue s) s.waiver in
    rw (authority_quiet s.authority).1 v

none_of_ne {ℓ} : {A : Type ℓ} (o : Option A) → ¬ (o ≢ none) → o ≡ none
none_of_ne none h = refl
none_of_ne (some a) h = absurd (h (λ e. cc))

module _ (s : Subject) where
  -- Where nothing is waived, an issue that is required has no place to go.
  no_issue :
      (s.validation_required ≡ true → issue s ≢ none → s.waiver ≢ none)
      → (subject_flags s).waives ≡ false
      → s.validation_required ≡ true
      → issue s ≡ none
  no_issue open_issue quiet required =
      none_of_ne (issue s)
        (λ found. let shown = (waives_iff s).1 (required, found, open_issue required found) in cc)

  waives_false : (s.validation_required ≡ true → issue s ≡ none) → (subject_flags s).waives ≡ false
  waives_false clean = elim (Bool-cases (subject_flags s).waives) [
    | inl w ↦ let parts = (waives_iff s).0 w in absurd (parts.1 (clean parts.0))
    | inr w ↦ w
  ]

  allow_iff : (outcome_of (findings_of s) ≡ allow) ↔ IsAdmissible s
  allow_iff = rw (outcome_of-flags s) (forward, backward)
    where
      forward : outcome_of_flags (subject_flags s) ≡ allow → IsAdmissible s
      forward h =
          let f = (allow_flags (subject_flags s)).0 h in
          let q = (quiet_iff s).0 f.0 in
          record {
            identified = q.0;
            authority = q.1;
            validated =
                λ required. (validation_reason-none_iff s.receipts).0 (no_issue q.2 f.1 required);
          }

      backward : IsAdmissible s → outcome_of_flags (subject_flags s) ≡ allow
      backward a =
          let clean = λ (r : s.validation_required ≡ true).
            (validation_reason-none_iff s.receipts).1 (a.validated r) in
          (allow_flags (subject_flags s)).1 (
            (quiet_iff s).1 (a.identified, a.authority, λ r found. absurd (found (clean r))),
            waives_false clean,
          )

  waived_iff : (outcome_of (findings_of s) ≡ waived) ↔ (
      IsIdentified s
      × HasAuthority s.authority
      × (s.validation_required ≡ true)
      × (¬ IsValidated s.receipts)
      × (s.waiver ≢ none))
  waived_iff = rw (outcome_of-flags s) (
    (λ h.
        let f = (waived_flags (subject_flags s)).0 h in
        let q = (quiet_iff s).0 f.0 in
        let w = (waives_iff s).0 f.1 in
        (q.0, q.1, w.0, (λ v. w.1 ((validation_reason-none_iff s.receipts).1 v)), w.2)),
    λ h. (waived_flags (subject_flags s)).1 (
      (quiet_iff s).1 (h.0, h.1, λ _ _. h.4),
      (waives_iff s).1 (h.2, (λ e. h.3 ((validation_reason-none_iff s.receipts).0 e)), h.4),
    ),
  )

  deny_iff : (outcome_of (findings_of s) ≡ Outcome.deny) ↔ (¬ IsIdentified s)
  deny_iff = rw (outcome_of-flags s) (
    (λ h i. let d = (deny_flags (subject_flags s)).0 h in let q = (IsIdentified-iff s).1 i in cc),
    λ h. (deny_flags (subject_flags s)).1 (elim (Bool-cases (subject_flags s).denies) [
      | inl d ↦ d
      | inr q ↦ absurd (h ((IsIdentified-iff s).0 q))
    ]),
  )

-- The evaluation of a request at a time that can be read, and what is said of its decision.
abbrev pub Decides : Platform → ℕ → Fields → String → Now → (PolicyDecision → Type 0) → Type 0
Decides p clock subject profile_id now P =
    (d : PolicyDecision) × (evaluate_admission_policy p clock subject profile_id now ≡ some d) × P d

module _ (p : Platform) (clock : ℕ) (subject : Fields) (profile_id : String) (now : Now) (t : ℕ)
    (timed : coerce_timestamp p clock now ≡ some t) where
  abbrev request : Subject
  request = read_subject p subject t

  evaluated :
      evaluate_admission_policy p clock subject profile_id now
      ≡ some (decide p request profile_id t)
  unfolding evaluate_admission_policy
  evaluated = rw timed

  -- A request whose time can be read gets a decision, and it is admitted outright exactly when it is
  -- identified, its authority is linked and current and, if validation is required, it has receipts and
  -- each that names an outcome names a successful one: one that names no outcome is taken as passing.
  pub evaluate_admission_policy-allow_iff :
      Decides p clock subject profile_id now
        (λ d. (d.outcome ≡ allow) ↔ IsAdmissible (read_subject p subject t))
  evaluate_admission_policy-allow_iff =
      (decide p request profile_id t, evaluated, unfold decide in allow_iff request)

  -- It is admitted by a waiver exactly when all but validation is in order, validation is required and
  -- not given, and a waiver was accepted: no waiver covers a missing identity or a stale authority.
  pub evaluate_admission_policy-waived_iff : Decides p clock subject profile_id now (λ d.
      (d.outcome ≡ waived) ↔ (
        IsIdentified (read_subject p subject t)
        × HasAuthority (read_subject p subject t).authority
        × ((read_subject p subject t).validation_required ≡ true)
        × (¬ IsValidated (read_subject p subject t).receipts)
        × ((read_subject p subject t).waiver ≢ none)))
  evaluate_admission_policy-waived_iff =
      (decide p request profile_id t, evaluated, unfold decide in waived_iff request)

  -- It is denied exactly when it is not identified, whatever waiver, authority or receipts it has.
  pub evaluate_admission_policy-deny_iff :
      Decides p clock subject profile_id now
        (λ d. (d.outcome ≡ Outcome.deny) ↔ (¬ IsIdentified (read_subject p subject t)))
  evaluate_admission_policy-deny_iff =
      (decide p request profile_id t, evaluated, unfold decide in deny_iff request)

  -- The decision requires no action exactly when it admits, outright or by a waiver.
  pub evaluate_admission_policy-actions_iff :
      Decides p clock subject profile_id now
        (λ d. (d.required_actions ≡ []) ↔ ((d.outcome ≡ allow) ⊎ (d.outcome ≡ waived)))
  evaluate_admission_policy-actions_iff =
      (decide p request profile_id t, evaluated, unfold decide in actions-nil_iff request)
