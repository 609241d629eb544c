-- ===== src/Policy/Verdict.antt =====
-- The severities that the checks of policy_admission.py report for a request, all checks together.
use workspace_governance_con.Prelude.{
  ap, ◌≡◌, refl, ◌≢◌, ◌↔◌, Bool, true, false, not, Option, none, some, List, [], ◌∷◌, arith,
  if◌then◌else◌,
}
use workspace_governance_con.Policy.Model.{
  Outcome, waived, allow, PolicyReason, AuthorityRef, Waiver,
}
use workspace_governance_con.Policy.Checks.{type_supported, validation_reason, outcome_of}
use workspace_governance_con.Policy.Evaluate.{Subject, findings_of}
use workspace_governance_con.Policy.Flags.{
  Flags, flags, either, denied, authority_flags, validation_flags, flags-append, flags-check_type,
  flags-check_id, flags-check_owner, flags-check_authority, flags-check_validation, is_none,
}
use workspace_governance_con.Policy.Admissible.{
  IsIdentified, HasAuthority, type_supported_iff, all-current_iff,
}

-- The fold of the flags of the five checks.
abbrev pub subject_flags : Subject → Flags
subject_flags s = either (denied (not (type_supported s.subject_type))) (
    either (denied (is_none s.subject_id)) (
      either (denied (is_none s.owner_repo)) (
        either (authority_flags s.authority)
          (validation_flags s.validation_required (validation_reason s.receipts) s.waiver))))

pub flags-findings_of : (s : Subject) → flags (findings_of s) ≡ subject_flags s
unfolding findings_of
flags-findings_of s = simp (
  flags-append, flags-check_type, flags-check_id, flags-check_owner, flags-check_authority,
  flags-check_validation,
)

abbrev pub outcome_of_flags : Flags → Outcome
outcome_of_flags f =
    if f.denies
    then Outcome.deny
    else if f.blocks
    then Outcome.blocked
    else if f.reviews
    then Outcome.review_required
    else if f.waives
    then waived
    else allow

pub outcome_of-flags :
    (s : Subject) → outcome_of (findings_of s) ≡ outcome_of_flags (subject_flags s)
unfolding outcome_of flags
outcome_of-flags s = ap outcome_of_flags (flags-findings_of s)

is_none_iff {ℓ} : {A : Type ℓ} (o : Option A) → (is_none o ≡ false) ↔ (o ≢ none)
is_none_iff none = ((λ h. cc), λ h. absurd (h refl))
is_none_iff (some a) = ((λ _ e. cc), λ _. refl)

pub authority_quiet :
    (refs : List AuthorityRef)
    → ((authority_flags refs).denies ≡ false) × ((authority_flags refs).waives ≡ false)
authority_quiet [] = (refl, refl)
authority_quiet (r ∷ refs) = (refl, refl)

authority_iff :
    (refs : List AuthorityRef)
    → (((authority_flags refs).blocks ≡ false) × ((authority_flags refs).reviews ≡ false))
      ↔ HasAuthority refs
authority_iff [] = ((λ h. cc), λ h. absurd (h.0 refl))
authority_iff (r ∷ refs) =
    let c = all-current_iff (r ∷ refs) in
    ((λ h. ((λ e. cc), c.0 (ground arith))), λ h. (rw (c.1 h.1), refl))

validation_denies :
    (b : Bool) (r : Option PolicyReason) (w : Option Waiver)
    → (validation_flags b r w).denies ≡ false
validation_denies false r w = refl
validation_denies true none w = refl
validation_denies true (some r) none = refl
validation_denies true (some r) (some w) = refl

-- A validation issue that is not waived shows as a block or a review.
validation_open_iff :
    (b : Bool) (r : Option PolicyReason) (w : Option Waiver)
    → (((validation_flags b r w).blocks ≡ false) × ((validation_flags b r w).reviews ≡ false))
      ↔ ((b ≡ true) → (r ≢ none) → w ≢ none)
validation_open_iff false r w = ((λ _ e. cc), λ _. (refl, refl))
validation_open_iff true none w = ((λ _ e n. absurd (n refl)), λ _. (refl, refl))
validation_open_iff true (some r) (some w) = ((λ _ e n x. cc), λ _. (refl, refl))
validation_open_iff true (some r) none =
    ((λ h e n w. ground arith), λ h. absurd (h refl (λ e. cc) refl))

pub validation_waives_iff :
    (b : Bool) (r : Option PolicyReason) (w : Option Waiver)
    → ((validation_flags b r w).waives ≡ true) ↔ ((b ≡ true) × (r ≢ none) × (w ≢ none))
validation_waives_iff false r w = ((λ h. cc), λ h. cc)
validation_waives_iff true none w = ((λ h. cc), λ h. absurd (h.1 refl))
validation_waives_iff true (some r) (some w) = ((λ _. (refl, (λ e. cc), λ e. cc)), λ _. refl)
validation_waives_iff true (some r) none = ((λ h. cc), λ h. absurd (h.2 refl))

pub IsIdentified-iff : (s : Subject) → ((subject_flags s).denies ≡ false) ↔ IsIdentified s
IsIdentified-iff s =
    let t = type_supported_iff s.subject_type in
    let i = is_none_iff s.subject_id in
    let o = is_none_iff s.owner_repo in
    let a = authority_quiet s.authority in
    let v = validation_denies s.validation_required (validation_reason s.receipts) s.waiver in
    (
      (λ h. record {
        type = t.0 (ground arith);
        id = i.0 (ground arith);
        owner = o.0 (ground arith);
      }),
      λ h. rw (t.1 h.type, i.1 h.id, o.1 h.owner, a.0, v),
    )

-- The same flags, block by block.
abbrev pub issue : Subject → Option PolicyReason
issue s = validation_reason s.receipts

abbrev pub QuietBelow : Flags → Type 0
QuietBelow f = (f.denies ≡ false) × (f.blocks ≡ false) × (f.reviews ≡ false)

-- Nothing denies, blocks or needs review exactly when identity and authority are in order and every
-- validation issue is waived.
pub quiet_iff :
    (s : Subject)
    → QuietBelow (subject_flags s) ↔ (
        IsIdentified s
        × HasAuthority s.authority
        × (s.validation_required ≡ true → issue s ≢ none → s.waiver ≢ none))
quiet_iff s =
    let i = IsIdentified-iff s in
    let a = authority_iff s.authority in
    let v = validation_open_iff s.validation_required (issue s) s.waiver in
    (
      (λ h. (i.0 h.0, a.0 (ground arith, ground arith), v.0 (ground arith, ground arith))),
      λ h. let a' = a.1 h.1 in let v' = v.1 h.2 in (i.1 h.0, rw (a'.0, v'.0), rw (a'.1, v'.1)),
    )
