-- ===== src/Budget/Caps.antt =====
-- The effective limits of `coerce_execution_limits` in performance_budgets.py, next to the contract of
-- `validation.run` and to the limits that were asked for.
use workspace_governance_con.Prelude.{
  ℕ, ◌≤◌, ◌≡◌, ◌↔◌, ◌⊎◌, true, Option, none, some, String, arith,
}
use workspace_governance_con.Value.{Fields, get}
use workspace_governance_con.Budget.Table.{PerformanceBudget}
use workspace_governance_con.Budget.Resolve.{resolve_performance_budget}
use workspace_governance_con.Budget.Limits.{
  ExecutionLimitDecision, apply_caps, coerce_execution_limits, int_or_default, optional_int,
}
use workspace_governance_con.Budget.Contracts.{LimitAtMost}

-- The effective limits against the contract and against what was asked for.
pub record Capped (b : PerformanceBudget) (timeout retries : ℕ) (output : Option ℕ)
    (d : ExecutionLimitDecision) : Type 0 where
  pub timeout_capped : LimitAtMost (some d.timeout_seconds) b.max_timeout_seconds
  pub retries_capped : LimitAtMost (some d.retry_count) b.max_retry_count
  pub output_capped : LimitAtMost d.output_budget_bytes b.max_output_budget_bytes
  pub timeout_asked : d.timeout_seconds ≤ timeout
  pub retries_asked : d.retry_count ≤ retries
  pub output_asked : LimitAtMost d.output_budget_bytes output
  pub within_iff : (d.decision.within_budget ≡ true) ↔ (
      (d.timeout_seconds ≡ timeout)
      × (d.retry_count ≡ retries)
      × ((output ≡ none) ⊎ (d.output_budget_bytes ≡ output)))

module _ (b : PerformanceBudget) (timeout retries : ℕ) (output : Option ℕ) where
  apply_caps-Capped : Capped b timeout retries output (apply_caps b timeout retries output)
  unfolding apply_caps
  apply_caps-Capped = record {
    timeout_capped = ground arith;
    retries_capped = ground arith;
    output_capped = ground arith;
    timeout_asked = ground arith;
    retries_asked = ground arith;
    output_asked = ground arith;
    within_iff = (λ h. ground arith, λ h. ground arith);
  }

-- The effective limits of a validation run are at most those of its contract and at most those that the
-- policy asks for (or the default timeout, no retry and no output limit, where it asks for none that can
-- be read), and the decision is within budget exactly when nothing that was asked for is lowered.
pub coerce_execution_limits-Capped :
    (execution_policy : Fields) (default_timeout_seconds : ℕ) (profile : String)
    → Capped
        (resolve_performance_budget "validation.run" profile)
        (int_or_default (get execution_policy "timeout_seconds") default_timeout_seconds 1)
        (int_or_default (get execution_policy "retry_count") 0 0)
        (optional_int (get execution_policy "output_budget_bytes") 0)
        (coerce_execution_limits execution_policy default_timeout_seconds profile)
unfolding coerce_execution_limits
coerce_execution_limits-Capped execution_policy default_timeout_seconds profile =
    apply_caps-Capped (resolve_performance_budget "validation.run" profile) _ _ _
