-- ===== src/Budget/Limits.antt =====
-- `coerce_execution_limits` of performance_budgets.py, with its readers of integers.
use workspace_governance_con.Prelude.{
  ℕ, Bool, true, false, not, Option, none, some, List, [], ◌∷◌, ◌++◌, String, leb, ltb, any,
  if◌then◌else◌,
}
use workspace_governance_con.Prelude.Int.{ℤ, pos, negsuc}
use workspace_governance_con.Value.{Value, Fields, null, int, field, end, get, to_int}
use workspace_governance_con.Budget.Table.{PerformanceBudget}
use workspace_governance_con.Budget.Resolve.{resolve_performance_budget}
use workspace_governance_con.Budget.Decide.{
  Reason, policy_within, capped, defaulted, BudgetDecision, is_nil,
}

-- `parsed if parsed >= minimum else None`; the minimum is never negative.
unfoldable pub at_least : ℕ → Option ℤ → Option ℕ
at_least minimum none = none
at_least minimum (some (pos n)) = if leb minimum n then some n else none
at_least minimum (some (negsuc n)) = none

-- `_optional_int`; `None` is not an integer either.
unfoldable pub optional_int : Value → ℕ → Option ℕ
unfolding at_least to_int
optional_int value minimum = at_least minimum (to_int value)

abbrev pub default_to : ℕ → Option ℕ → ℕ
default_to d none = d
default_to d (some n) = n

-- `_int_or_default`
unfoldable pub int_or_default : Value → ℕ → ℕ → ℕ
unfolding optional_int
int_or_default value default minimum = default_to default (optional_int value minimum)

pub record ExecutionLimitDecision : Type 0 where
  pub decision : BudgetDecision
  pub output_budget_bytes : Option ℕ
  pub retry_count : ℕ
  pub timeout_seconds : ℕ

-- One cap: the reasons that it appends, and the value that is left.
abbrev pub cap_at : String → Option ℕ → ℕ → List Reason × ℕ
cap_at name none requested = ([], requested)
cap_at name (some limit) requested =
    if ltb limit requested then (capped name requested limit ∷ [], limit) else ([], requested)

abbrev pub cap_output : Option ℕ → Option ℕ → List Reason × Option ℕ
cap_output none requested = ([], requested)
cap_output (some limit) none = (defaulted "output_budget_bytes" limit ∷ [], some limit)
cap_output (some limit) (some requested) =
    if ltb limit requested
    then (capped "output_budget_bytes" requested limit ∷ [], some limit)
    else ([], some requested)

-- `"capped" in reason`: no other reason of this function has the word.
abbrev pub mentions_capped : Reason → Bool
mentions_capped (capped _ _ _) = true
mentions_capped _ = false

abbrev requested_value : Option ℕ → Value
requested_value none = null
requested_value (some n) = int (pos n)

-- The body after the contract and the three requests are read.
unfoldable pub apply_caps : PerformanceBudget → ℕ → ℕ → Option ℕ → ExecutionLimitDecision
apply_caps budget timeout retries output =
    let (r1, timeout') = cap_at "timeout_seconds" budget.max_timeout_seconds timeout in
    let (r2, retries') = cap_at "retry_count" budget.max_retry_count retries in
    let (r3, output') = cap_output budget.max_output_budget_bytes output in
    let reasons = r1 ++ (r2 ++ r3) in
    record {
      decision = record {
        budget = budget;
        observed = field "requested_output_budget_bytes" (requested_value output) (
            field "requested_retry_count" (int (pos retries))
              (field "requested_timeout_seconds" (int (pos timeout)) end));
        recommended_action = budget.recommended_action;
        reasons = if is_nil reasons then policy_within ∷ [] else reasons;
        within_budget =
            not (any mentions_capped (if is_nil reasons then policy_within ∷ [] else reasons));
      };
      output_budget_bytes = output';
      retry_count = retries';
      timeout_seconds = timeout';
    }

unfoldable pub coerce_execution_limits : Fields → ℕ → String → ExecutionLimitDecision
unfolding apply_caps int_or_default
coerce_execution_limits execution_policy default_timeout_seconds profile =
    apply_caps (resolve_performance_budget "validation.run" profile)
      (int_or_default (get execution_policy "timeout_seconds") default_timeout_seconds 1)
      (int_or_default (get execution_policy "retry_count") 0 0)
      (optional_int (get execution_policy "output_budget_bytes") 0)
