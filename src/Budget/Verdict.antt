-- ===== src/Budget/Verdict.antt =====
-- When `evaluate_operation_budget` of performance_budgets.py says that an operation is within budget.
use workspace_governance_con.Prelude.{
  ℕ, ◌≡◌, refl, ◌↔◌, true, false, Option, none, some, List, [], ◌∷◌, ◌++◌, String, arith,
}
use mathlib.Core.Path.{subst}
use mathlib.Core.Option.{some-injective}
use workspace_governance_con.Prelude.Int.{ℤ, exceeds}
use workspace_governance_con.Value.{Fields, get, to_int}
use workspace_governance_con.Budget.Table.{PerformanceBudget}
use workspace_governance_con.Budget.Resolve.{
  resolve_performance_budget, contract_of, unclassified, operation_key,
}
use workspace_governance_con.Budget.Decide.{
  Reason, check_max, over_limit, check_all, needs_classification, decide, evaluate_operation_budget,
  is_nil,
}
use workspace_governance_con.Budget.Contracts.{
  is_some, needs_iff_unclassified, resolve-unclassified,
}

-- The observation at `label`, where it reads as an integer, is not above the limit, where there is one.
abbrev pub Observes : Fields → String → Option ℕ → Type 0
Observes observed label limit =
    (n : ℕ) (v : ℤ) → limit ≡ some n → to_int (get observed label) ≡ some v → exceeds v n ≡ false

pub record WithinLimits (b : PerformanceBudget) (observed : Fields) : Type 0 where
  pub checks : Observes observed "selected_checks" b.max_selected_checks
  pub nodes : Observes observed "graph_nodes" b.max_graph_nodes
  pub edges : Observes observed "graph_edges" b.max_graph_edges
  pub duration : Observes observed "duration_ms" (some b.max_duration_ms)
  pub output : Observes observed "output_bytes" b.max_output_budget_bytes

over_limit-nil :
    (label : String) (limit : ℕ) (read : Option ℤ)
    → (over_limit label limit read ≡ []) ↔ ((v : ℤ) → read ≡ some v → exceeds v limit ≡ false)
unfolding over_limit
over_limit-nil label limit none = ((λ _ v e. cc), λ _. refl)
over_limit-nil label limit (some p) =
    ((λ h v e. ground arith), λ h. let below = h p refl in rw below)

check_max-nil :
    (label : String) (limit : Option ℕ) (observed : Fields)
    → (check_max label limit observed ≡ []) ↔ Observes observed label limit
unfolding check_max
check_max-nil label none observed = ((λ _ n v e _. cc), λ _. refl)
check_max-nil label (some limit) observed =
    let read = over_limit-nil label limit (to_int (get observed label)) in
    (
      (λ h n v e r. subst (λ m. exceeds v m ≡ false) (some-injective limit n e) (read.0 h v r)),
      λ h. read.1 (λ v r. h limit v refl r),
    )

append-nil_parts {ℓ} : {A : Type ℓ} (xs ys : List A) → xs ++ ys ≡ [] → (xs ≡ []) × (ys ≡ [])
append-nil_parts [] ys h = (refl, h)
append-nil_parts (x ∷ xs) ys h = cc

is_nil_iff {ℓ} : {A : Type ℓ} (xs : List A) → (is_nil xs ≡ true) ↔ (xs ≡ [])
is_nil_iff [] = ((λ _. refl), λ _. refl)
is_nil_iff (x ∷ xs) = ((λ h. cc), λ h. cc)

decide-within :
    (b : PerformanceBudget) (observed : Fields) (reasons : List Reason)
    → ((decide b observed reasons).within_budget ≡ true)
      ↔ ((needs_classification b ≡ false) × (is_nil reasons ≡ true))
unfolding decide
decide-within b observed [] = (λ h. ground arith, λ h. ground arith)
decide-within b observed (r ∷ rs) = (λ h. ground arith, λ h. cc)

check_all-nil :
    (b : PerformanceBudget) (observed : Fields)
    → (check_all b observed ≡ []) ↔ WithinLimits b observed
unfolding check_all
check_all-nil b observed = (
  (λ h.
      let (h1, t1) = append-nil_parts _ _ h in
      let (h2, t2) = append-nil_parts _ _ t1 in
      let (h3, t3) = append-nil_parts _ _ t2 in
      let (h4, h5) = append-nil_parts _ _ t3 in
      record {
        checks = (check_max-nil _ _ observed).0 h1;
        nodes = (check_max-nil _ _ observed).0 h2;
        edges = (check_max-nil _ _ observed).0 h3;
        duration = (check_max-nil _ _ observed).0 h4;
        output = (check_max-nil _ _ observed).0 h5;
      }),
  λ w. rw (
    (check_max-nil _ _ observed).1 w.checks,
    (check_max-nil _ _ observed).1 w.nodes,
    (check_max-nil _ _ observed).1 w.edges,
    (check_max-nil _ _ observed).1 w.duration,
    (check_max-nil _ _ observed).1 w.output,
  ),
)

-- An operation is within budget exactly when the table has a contract for it and no observation that
-- reads as an integer is above the limit of the resolved contract.
pub evaluate_operation_budget-within_iff :
    (operation : String) (observed : Fields) (profile : String)
    → ((evaluate_operation_budget operation observed profile).within_budget ≡ true) ↔ (
        (is_some (contract_of operation) ≡ true)
        × WithinLimits (resolve_performance_budget operation profile) observed)
unfolding evaluate_operation_budget
evaluate_operation_budget-within_iff operation observed profile =
    let b = resolve_performance_budget operation profile in
    let d = decide-within b observed (check_all b observed) in
    let n = needs_iff_unclassified operation profile in
    let c = check_all-nil b observed in
    (
      (λ h. (ground (arith, n, d.0 h), c.0 ((is_nil_iff _).0 (d.0 h).1))),
      λ h. d.1 (ground (arith, n, h.0), (is_nil_iff _).1 (c.1 h.1)),
    )

decide-unclassified :
    (key : String) (observed : Fields) (reasons : List Reason)
    → let d = decide (unclassified key) observed reasons in
      (d.within_budget ≡ false)
      × (d.recommended_action ≡ "classify_operation_before_synchronous_gate")
unfolding decide unclassified needs_classification
decide-unclassified key observed [] = ground arith
decide-unclassified key observed (r ∷ rs) = ground arith

-- An operation with no contract is never within budget and is sent to be classified, whatever is
-- observed.
pub evaluate_operation_budget-unclassified :
    (operation : String) (observed : Fields) (profile : String)
    → contract_of operation ≡ none
    → ((evaluate_operation_budget operation observed profile).within_budget ≡ false)
      × ((evaluate_operation_budget operation observed profile).recommended_action
          ≡ "classify_operation_before_synchronous_gate")
unfolding evaluate_operation_budget
evaluate_operation_budget-unclassified operation observed profile h =
    rw (resolve-unclassified operation profile h) (
      decide-unclassified (operation_key operation) observed
        (check_all (unclassified (operation_key operation)) observed))
