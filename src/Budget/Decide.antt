-- ===== src/Budget/Decide.antt =====
-- `evaluate_operation_budget` and `_check_max` of performance_budgets.py.
use workspace_governance_con.Prelude.{
  ℕ, Bool, true, false, not, Option, none, some, List, [], ◌∷◌, ◌++◌, String, str_eq, ◌&&◌, ◌||◌,
  if◌then◌else◌,
}
use workspace_governance_con.Prelude.Int.{ℤ, exceeds}
use workspace_governance_con.Value.{Fields, get, to_int, text, int, field, end}
use workspace_governance_con.Budget.Table.{PerformanceBudget, InvocationClass, inline_fast}
use workspace_governance_con.Budget.Resolve.{resolve_performance_budget}

-- The reason texts, by the values that they print.
pub data Reason : Type 0 where
  exceeds_budget : String → ℤ → ℕ → Reason  -- f"{label} {parsed} exceeds budget {limit}"
  within : Reason  -- "within configured WGCF performance budget"
  policy_within : Reason  -- "execution policy is within validation-run budget"
  capped : String → ℕ → ℕ → Reason  -- f"{name} capped from {requested} to {limit}"
  defaulted : String → ℕ → Reason  -- f"{name} defaulted to {limit}"

pub record BudgetDecision : Type 0 where
  pub budget : PerformanceBudget
  pub observed : Fields
  pub recommended_action : String
  pub reasons : List Reason
  pub within_budget : Bool

unfoldable pub over_limit : String → ℕ → Option ℤ → List Reason
over_limit label limit none = []
over_limit label limit (some parsed) =
    if exceeds parsed limit then exceeds_budget label parsed limit ∷ [] else []

-- What `_check_max` appends. `observed.get(label)` is `None` on a missing label, and `int(None)` fails
-- as the early return does.
unfoldable pub check_max : String → Option ℕ → Fields → List Reason
unfolding over_limit
check_max label none observed = []
check_max label (some limit) observed = over_limit label limit (to_int (get observed label))

abbrev pub is_nil {ℓ} : {A : Type ℓ} → List A → Bool
is_nil [] = true
is_nil (_ ∷ _) = false

abbrev pub is_inline_fast : InvocationClass → Bool
is_inline_fast inline_fast = true
is_inline_fast _ = false

unfoldable pub check_all : PerformanceBudget → Fields → List Reason
check_all budget observed =
    check_max "selected_checks" budget.max_selected_checks observed
    ++ (check_max "graph_nodes" budget.max_graph_nodes observed
        ++ (check_max "graph_edges" budget.max_graph_edges observed
            ++ (check_max "duration_ms" (some budget.max_duration_ms) observed
                ++ check_max "output_bytes" budget.max_output_budget_bytes observed)))

-- The test of the `elif`.
unfoldable pub needs_classification : PerformanceBudget → Bool
needs_classification budget =
    str_eq budget.operation "unknown" || str_eq budget.failure_mode "classification_required"

-- The body after the contract is resolved, on the reasons of the checks.
unfoldable pub decide : PerformanceBudget → Fields → List Reason → BudgetDecision
decide budget observed reasons =
    let reroute = not (is_nil reasons) && is_inline_fast budget.invocation_class in
    let classify = needs_classification budget in
    record {
      budget = budget;
      observed = observed;
      recommended_action =
          if reroute
          then "route_to_checkpoint_batch_or_paginate"
          else if classify
          then "classify_operation_before_synchronous_gate"
          else budget.recommended_action;
      reasons = if is_nil reasons then within ∷ [] else reasons;
      within_budget = if reroute then false else if classify then false else is_nil reasons;
    }

unfoldable pub evaluate_operation_budget : String → Fields → String → BudgetDecision
unfolding decide check_all
evaluate_operation_budget operation observed profile =
    let budget = resolve_performance_budget operation profile in
    decide budget observed (check_all budget observed)

unfoldable pub evaluate_validation_plan_budget : String → ℤ → String → BudgetDecision
unfolding evaluate_operation_budget
evaluate_validation_plan_budget profile selected_check_count tier =
    evaluate_operation_budget "validation.plan"
      (field "selected_checks" (int selected_check_count) (field "tier" (text tier) end)) profile
