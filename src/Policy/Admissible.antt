-- ===== src/Policy/Admissible.antt =====
-- What an admissible request is, said of its fields, next to the checks of policy_admission.py.
use workspace_governance_con.Prelude.{
  ◌≡◌, refl, ◌≢◌, ◌↔◌, ◌⊎◌, true, false, Option, none, some, List, [], ◌∷◌, String, arith, All, all,
  contains, eq_iff, contains-All,
}
use workspace_governance_con.Prelude.Text.{lower}
use workspace_governance_con.Policy.Model.{
  AuthorityRef, ReceiptRef, successful_receipt_outcomes, failed_receipt_outcomes,
}
use workspace_governance_con.Policy.Checks.{
  type_supported, is_current, receipt_outcome, receipt_reason, first_reason, validation_reason,
  freshness,
}
use workspace_governance_con.Policy.Evaluate.{Subject}

-- A repository or a component with an identity and an owner.
pub record IsIdentified (s : Subject) : Type 0 where
  pub type : (s.subject_type ≡ some "component") ⊎ (s.subject_type ≡ some "repo")
  pub id : s.subject_id ≢ none
  pub owner : s.owner_repo ≢ none

-- At least one authority reference, and each of them current.
abbrev pub HasAuthority : List AuthorityRef → Type 0
HasAuthority refs = (refs ≢ []) × All (λ r. lower (freshness r) ≡ "current") refs

-- A receipt that names an outcome names a successful one; one that names none is accepted.
abbrev pub Passes : Option String → Type 0
Passes none = Unit
Passes (some o) = contains (lower o) successful_receipt_outcomes ≡ true

abbrev pub IsValidated : List ReceiptRef → Type 0
IsValidated rs = (rs ≢ []) × All (λ r. Passes (receipt_outcome r)) rs

pub type_supported_iff :
    (t : Option String) → (type_supported t ≡ true) ↔ ((t ≡ some "component") ⊎ (t ≡ some "repo"))
unfolding type_supported contains
type_supported_iff none = ((λ h. cc), λ h. ground arith)
type_supported_iff (some t) = (
  (λ h. ground (arith, eq_iff t "component", eq_iff t "repo")),
  λ h. ground (arith, eq_iff t "component", eq_iff t "repo"),
)

pub all-current_iff :
    (refs : List AuthorityRef)
    → (all is_current refs ≡ true) ↔ All (λ r. lower (freshness r) ≡ "current") refs
unfolding is_current
all-current_iff [] = ((λ _. tt), λ _. refl)
all-current_iff (r ∷ refs) =
    let head = eq_iff (lower (freshness r)) "current" in
    let rest = all-current_iff refs in
    ((λ h. (head.0 (ground arith), rest.0 (ground arith))), λ h. rw (head.1 h.0, rest.1 h.1))

failed_not_successful :
    (o : String)
    → contains o successful_receipt_outcomes ≡ true
    → contains o failed_receipt_outcomes ≡ false
failed_not_successful o =
    contains-All (λ x. contains x failed_receipt_outcomes ≡ false) o successful_receipt_outcomes
      (unfold contains in (refl, (refl, (refl, (refl, (refl, tt))))))

receipt_reason-none_iff :
    (id : String) (o : Option String) → (receipt_reason id o ≡ none) ↔ Passes o
unfolding receipt_reason
receipt_reason-none_iff id none = ((λ _. tt), λ _. refl)
receipt_reason-none_iff id (some o) =
    let clash = failed_not_successful (lower o) in ((λ h. ground arith), λ h. rw (clash h, h))

first_reason-none_iff :
    (rs : List ReceiptRef) → (first_reason rs ≡ none) ↔ All (λ r. Passes (receipt_outcome r)) rs
unfolding first_reason
first_reason-none_iff [] = ((λ _. tt), λ _. refl)
first_reason-none_iff (r ∷ rs) =
    let head = receipt_reason-none_iff r.receipt_id (receipt_outcome r) in
    let rest = first_reason-none_iff rs in
    ((λ h. (head.0 (ground arith), rest.0 (ground arith))), λ h. rw (head.1 h.0, rest.1 h.1))

pub validation_reason-none_iff :
    (rs : List ReceiptRef) → (validation_reason rs ≡ none) ↔ IsValidated rs
unfolding validation_reason
validation_reason-none_iff [] = ((λ h. cc), λ v. absurd (v.0 refl))
validation_reason-none_iff (r ∷ rs) =
    let f = first_reason-none_iff (r ∷ rs) in ((λ h. ((λ e. cc), f.0 h)), λ v. f.1 v.1)

-- What admission asks of a request: identity, current authority, and validation where it is required.
pub record IsAdmissible (s : Subject) : Type 0 where
  pub identified : IsIdentified s
  pub authority : HasAuthority s.authority
  pub validated : s.validation_required ≡ true → IsValidated s.receipts
