-- ===== src/Examples/Budgets.antt =====
-- The theorems about performance_budgets.py at concrete inputs.
use workspace_governance_con.Prelude.{
  ℕ, arith, lookup, ◌≤◌, ◌<◌, ◌≡◌, refl, ◌↔◌, true, false, List, some, [], ◌∷◌, length,
}
use workspace_governance_con.Prelude.Int.{pos}
use workspace_governance_con.Value.{Fields, int, null, text, end, field, get}
use workspace_governance_con.Budget.Resolve.{resolve_performance_budget, contract_of, operation_key}
use workspace_governance_con.Budget.Decide.{evaluate_operation_budget}
use workspace_governance_con.Budget.Limits.{coerce_execution_limits, int_or_default, optional_int}
use workspace_governance_con.Budget.Pages.{walk, paginate_items}
use workspace_governance_con.Budget.Contracts.{
  Tightens, is_some, resolve_performance_budget-Tightens,
}
use workspace_governance_con.Budget.Verdict.{
  WithinLimits, evaluate_operation_budget-within_iff, evaluate_operation_budget-unclassified,
}
use workspace_governance_con.Budget.Caps.{Capped, coerce_execution_limits-Capped}
use workspace_governance_con.Budget.Walk.{walk_complete, paginate_items_bounds}

abbrev observed : Fields
observed = field "graph_nodes" (int (pos 20)) (field "duration_ms" (text "900") end)

abbrev policy : Fields
policy = field "timeout_seconds" (int (pos 5000)) (field "retry_count" (text "2") end)

abbrev three : List ℕ
three = 7 ∷ 8 ∷ 9 ∷ []

resolve_performance_budget-Tightens_example :
    Tightens
      (resolve_performance_budget "graph.query" "ci")
      (resolve_performance_budget "graph.query" "developer")
resolve_performance_budget-Tightens_example = resolve_performance_budget-Tightens "graph.query" "ci"

evaluate_operation_budget-within_iff_example :
    ((evaluate_operation_budget "graph.query" observed "ci").within_budget ≡ true) ↔ (
      (is_some (contract_of "graph.query") ≡ true)
      × WithinLimits (resolve_performance_budget "graph.query" "ci") observed)
evaluate_operation_budget-within_iff_example =
    evaluate_operation_budget-within_iff "graph.query" observed "ci"

evaluate_operation_budget-unclassified_example :
    ((evaluate_operation_budget "graph.drop" observed "ci").within_budget ≡ false)
    × ((evaluate_operation_budget "graph.drop" observed "ci").recommended_action
        ≡ "classify_operation_before_synchronous_gate")
unfolding lookup operation_key
evaluate_operation_budget-unclassified_example =
    evaluate_operation_budget-unclassified "graph.drop" observed "ci" refl

coerce_execution_limits-Capped_example :
    Capped
      (resolve_performance_budget "validation.run" "ci")
      (int_or_default (get policy "timeout_seconds") 300 1)
      (int_or_default (get policy "retry_count") 0 0)
      (optional_int (get policy "output_budget_bytes") 0)
      (coerce_execution_limits policy 300 "ci")
coerce_execution_limits-Capped_example = coerce_execution_limits-Capped policy 300 "ci"

walk_complete_example : walk 4 three (int (pos 2)) 0 "graph.query" "ci" ≡ some three
walk_complete_example = walk_complete three (int (pos 2)) "graph.query" "ci"

paginate_items_bounds_example :
    let (page, info) = paginate_items three (int (pos 2)) null "graph.query" "developer" in
    (length page ≤ info.effective_limit) × (info.effective_limit ≤ 50) × (0 < info.effective_limit)
unfolding resolve_performance_budget
paginate_items_bounds_example =
    paginate_items_bounds three (int (pos 2)) null "graph.query" "developer" 50 refl (omega arith)
