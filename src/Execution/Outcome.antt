-- ===== src/Execution/Outcome.antt =====
-- `_receipt_outcome` of validation_execution.py, and when a receipt is a success.
use workspace_governance_con.Prelude.{
  ◌≡◌, ◌≢◌, ◌↔◌, refl, sym, ◌∙◌, Bool, true, false, ◌&&◌, ◌||◌, List, [], ◌∷◌, any, filter, All,
  Bool-cases, inl, inr, if◌then◌else◌,
}
use workspace_governance_con.Budget.Decide.{is_nil}
use workspace_governance_con.Plan.Model.{Outcome, planned, no_matching_validators}
use workspace_governance_con.Execution.Model.{
  Status, success, failure, blocked, skipped_fresh_receipt, CheckResult,
}

-- The outcomes of a receipt.
pub data ReceiptOutcome : Type 0 where
  passed failed was_blocked operator_review_required : ReceiptOutcome

unfoldable pub is_blocked : Status → Bool
is_blocked blocked = true
is_blocked _ = false

-- `result.status in {"failure", "blocked"}`
unfoldable pub is_failed : Status → Bool
is_failed failure = true
is_failed blocked = true
is_failed _ = false

unfoldable pub outcome_of_results : List CheckResult → ReceiptOutcome
unfolding is_blocked is_failed
outcome_of_results results =
    if is_nil results
    then operator_review_required
    else if any (λ r. is_failed r.status) (filter (λ r. r.required) results)
    then failed
    else if any (λ r. is_blocked r.status) results
    then was_blocked
    else passed

-- `_receipt_outcome`
unfoldable pub receipt_outcome : Outcome → List CheckResult → ReceiptOutcome
unfolding outcome_of_results
receipt_outcome Outcome.blocked results = was_blocked
receipt_outcome no_matching_validators results = operator_review_required
receipt_outcome planned results = outcome_of_results results

-- A result that does not stand against a success: it is not blocked and, where the check is required,
-- no failure.
abbrev pub FineAs : Bool → Status → Type 0
FineAs required blocked = ⊥
FineAs true failure = ⊥
FineAs false failure = Unit
FineAs required success = Unit
FineAs required skipped_fresh_receipt = Unit

abbrev pub IsFine : CheckResult → Type 0
IsFine r = FineAs r.required r.status

abbrev failures : List CheckResult → Bool
failures results = any (λ r. is_failed r.status) (filter (λ r. r.required) results)

abbrev blocks : List CheckResult → Bool
blocks results = any (λ r. is_blocked r.status) results

failures-cons :
    (r : CheckResult) (rs : List CheckResult)
    → failures (r ∷ rs) ≡ ((r.required && is_failed r.status) || failures rs)
failures-cons r rs = elim (Bool-cases r.required) [ inl e ↦ rw e refl | inr e ↦ rw e refl ]

-- One result: the two tests with those of the others.
head_iff :
    (q : Bool) (s : Status) (x y : Bool)
    → ((((q && is_failed s) || x) ≡ false) × ((is_blocked s || y) ≡ false))
      ↔ (FineAs q s × ((x ≡ false) × (y ≡ false)))
unfolding is_failed is_blocked
head_iff true success x y = ((λ h. (tt, h)), λ h. h.1)
head_iff false success x y = ((λ h. (tt, h)), λ h. h.1)
head_iff true skipped_fresh_receipt x y = ((λ h. (tt, h)), λ h. h.1)
head_iff false skipped_fresh_receipt x y = ((λ h. (tt, h)), λ h. h.1)
head_iff true failure x y = ((λ h. cc), λ h. absurd h.0)
head_iff false failure x y = ((λ h. (tt, h)), λ h. h.1)
head_iff true blocked x y = ((λ h. cc), λ h. absurd h.0)
head_iff false blocked x y = ((λ h. cc), λ h. absurd h.0)

tests_iff :
    (results : List CheckResult)
    → ((failures results ≡ false) × (blocks results ≡ false)) ↔ All IsFine results
tests_iff [] = ((λ h. tt), λ h. (refl, refl))
tests_iff (r ∷ rs) =
    let (f, g) = head_iff r.required r.status (failures rs) (blocks rs) in
    let (f', g') = tests_iff rs in
    (
      (λ h. let (a, b) = f (sym (failures-cons r rs) ∙ h.0, h.1) in (a, f' b)),
      λ h. let (a, b) = g (h.0, g' h.1) in (failures-cons r rs ∙ a, b),
    )

chain_iff :
    (f b : Bool)
    → ((if f then failed else if b then was_blocked else passed) ≡ passed)
      ↔ ((f ≡ false) × (b ≡ false))
chain_iff true b = ((λ h. cc), λ h. cc)
chain_iff false true = ((λ h. cc), λ h. cc)
chain_iff false false = ((λ h. (refl, refl)), λ h. refl)

results_iff :
    (results : List CheckResult)
    → (outcome_of_results results ≡ passed) ↔ ((results ≢ []) × All IsFine results)
unfolding outcome_of_results
results_iff [] = ((λ h. cc), λ h. absurd (h.0 refl))
results_iff (r ∷ rs) =
    let (f, g) = chain_iff (failures (r ∷ rs)) (blocks (r ∷ rs)) in
    let (f', g') = tests_iff (r ∷ rs) in ((λ h. (λ e. cc, f' (f h))), λ h. g (g' h.1))

-- A receipt is a success exactly where the plan was carried out, there is a result, no check is blocked
-- and no required check has failed.
pub receipt_outcome-passed_iff :
    (outcome : Outcome) (results : List CheckResult)
    → (receipt_outcome outcome results ≡ passed)
      ↔ ((outcome ≡ planned) × ((results ≢ []) × All IsFine results))
unfolding receipt_outcome
receipt_outcome-passed_iff Outcome.blocked results = ((λ h. cc), λ h. cc)
receipt_outcome-passed_iff no_matching_validators results = ((λ h. cc), λ h. cc)
receipt_outcome-passed_iff planned results =
    let (f, g) = results_iff results in ((λ h. (refl, f h)), λ h. g h.1)
