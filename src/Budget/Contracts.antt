-- ===== src/Budget/Contracts.antt =====
-- What every contract of the table keeps through the overrides of a profile.
use workspace_governance_con.Prelude.{
  ℕ, ◌≤◌, ◌≡◌, refl, Bool, true, false, not, Option, none, some, List, [], ◌∷◌, String, arith,
  eq_iff, sym, All, lookup, str_eq, Bool-cases, Option-cases, inl, inr, ◌∙◌,
}
use mathlib.Core.Path.{subst, subst₂}
use native.Mathlib.Nat.{le_refl}
use mathlib.Core.Option.{some-injective}
use workspace_governance_con.Prelude.Text.{strip}
use workspace_governance_con.Budget.Table.{
  PerformanceBudget, LimitField, max_page_size, default_operation_budgets, profile_overrides,
}
use workspace_governance_con.Budget.Resolve.{
  override, update, or_nothing, or_text, overrides_for, unclassified, resolve_key, operation_key,
  resolve_performance_budget, contract_of,
}
use workspace_governance_con.Budget.Decide.{needs_classification}

lookup-All {ℓ κ} :
    {V : Type ℓ} (P : V → Type κ) (k : String) (m : List (String × V)) {v : V}
    → All (λ e. P e.1) m
    → lookup k m ≡ some v
    → P v
unfolding lookup
lookup-All P k [] h e = cc
lookup-All P k ((j, w) ∷ m) {v} h e = elim (Bool-cases (str_eq k j)) [
  | inl same ↦ subst P (some-injective w v (ground arith)) h.0
  | inr other ↦ lookup-All P k m h.1 (ground arith)
]

needs-override :
    (o : LimitField × ℕ) (b : PerformanceBudget)
    → needs_classification (override o b) ≡ needs_classification b
unfolding override needs_classification
needs-override (max_page_size, n) b = refl
needs-override (_, n) b = refl

needs-update :
    (os : List (LimitField × ℕ)) (b : PerformanceBudget)
    → needs_classification (update os b) ≡ needs_classification b
unfolding update
needs-update [] b = refl
needs-update (o ∷ os) b = rw (needs-update os (override o b)) (needs-override o b)

table_classified : All (λ e. needs_classification e.1 ≡ false) default_operation_budgets
unfolding needs_classification
table_classified = (
  refl,
  (refl, (refl, (refl, (refl, (refl, (refl, (refl, (refl, (refl, (refl, (refl, tt))))))))))),
)

needs-unclassified : (key : String) → needs_classification (unclassified key) ≡ true
unfolding needs_classification unclassified
needs-unclassified key = ground arith

-- Whether an operation has a contract.
abbrev pub is_some {ℓ} : {A : Type ℓ} → Option A → Bool
is_some none = false
is_some (some _) = true

resolve_key-needs :
    (key profile : String) (found : Option PerformanceBudget)
    → lookup key default_operation_budgets ≡ found
    → needs_classification (resolve_key found key profile) ≡ not (is_some found)
unfolding resolve_key
resolve_key-needs key profile none e = needs-unclassified key
resolve_key-needs key profile (some base) e =
    needs-update (overrides_for profile key) base
    ∙ lookup-All (λ b. needs_classification b ≡ false) key default_operation_budgets
        table_classified e

pub needs_iff_unclassified :
    (operation profile : String)
    → needs_classification (resolve_performance_budget operation profile)
      ≡ not (is_some (contract_of operation))
unfolding resolve_performance_budget
needs_iff_unclassified operation profile =
    resolve_key-needs (operation_key operation) profile (contract_of operation) refl

-- One limit is at least as strict as another; `none` is no limit.
abbrev pub LimitAtMost : Option ℕ → Option ℕ → Type 0
LimitAtMost a none = Unit
LimitAtMost none (some n) = ⊥
LimitAtMost (some m) (some n) = m ≤ n

-- A contract that is at least as strict in each limit, and otherwise the same.
pub record Tightens (a b : PerformanceBudget) : Type 0 where
  pub graph_edges : LimitAtMost a.max_graph_edges b.max_graph_edges
  pub graph_nodes : LimitAtMost a.max_graph_nodes b.max_graph_nodes
  pub output_bytes : LimitAtMost a.max_output_budget_bytes b.max_output_budget_bytes
  pub page_size : LimitAtMost a.max_page_size b.max_page_size
  pub retries : LimitAtMost a.max_retry_count b.max_retry_count
  pub checks : LimitAtMost a.max_selected_checks b.max_selected_checks
  pub timeout : LimitAtMost a.max_timeout_seconds b.max_timeout_seconds
  pub freshness : LimitAtMost a.receipt_freshness_seconds b.receipt_freshness_seconds
  pub duration : a.max_duration_ms ≡ b.max_duration_ms
  pub class : a.invocation_class ≡ b.invocation_class
  pub failure : a.failure_mode ≡ b.failure_mode

LimitAtMost_refl : (o : Option ℕ) → LimitAtMost o o
LimitAtMost_refl none = tt
LimitAtMost_refl (some n) = le_refl n

Tightens-refl : (b : PerformanceBudget) → Tightens b b
Tightens-refl b = record {
  graph_edges = LimitAtMost_refl b.max_graph_edges;
  graph_nodes = LimitAtMost_refl b.max_graph_nodes;
  output_bytes = LimitAtMost_refl b.max_output_budget_bytes;
  page_size = LimitAtMost_refl b.max_page_size;
  retries = LimitAtMost_refl b.max_retry_count;
  checks = LimitAtMost_refl b.max_selected_checks;
  timeout = LimitAtMost_refl b.max_timeout_seconds;
  freshness = LimitAtMost_refl b.receipt_freshness_seconds;
  duration = refl;
  class = refl;
  failure = refl;
}

-- The contract of `key` under one profile's overrides.
abbrev TightAt : String → PerformanceBudget → List (String × List (LimitField × ℕ)) → Type 0
TightAt key base overrides = Tightens (update (or_nothing (lookup key overrides)) base) base

table_tightens :
    All (λ e. All (λ p. TightAt e.0 e.1 p.1) profile_overrides) default_operation_budgets
unfolding update override lookup or_nothing
table_tightens = ground arith

pub resolve-unclassified :
    (operation profile : String)
    → contract_of operation ≡ none
    → resolve_performance_budget operation profile ≡ unclassified (operation_key operation)
unfolding resolve_performance_budget resolve_key
resolve-unclassified operation profile h = rw h

lookup_some-All {ℓ κ} :
    {V : Type ℓ} (P : String → V → Type κ) (k : String) (m : List (String × V)) {v : V}
    → All (λ e. P e.0 e.1) m
    → lookup k m ≡ some v
    → P k v
unfolding lookup
lookup_some-All P k [] h e = cc
lookup_some-All P k ((j, w) ∷ m) {v} h e = elim (Bool-cases (str_eq k j)) [
  | inl same ↦ subst₂ P (sym ((eq_iff k j).0 same)) (some-injective w v (ground arith)) h.0
  | inr other ↦ lookup_some-All P k m h.1 (ground arith)
]

tight_profile :
    (key : String) (base : PerformanceBudget) (profile : String)
    → All (λ p. TightAt key base p.1) profile_overrides
    → Tightens (update (overrides_for profile key) base) base
unfolding overrides_for
tight_profile key base profile h =
    let name = strip (or_text profile "developer") in
    elim (Option-cases (lookup name profile_overrides)) [
      | inl absent ↦ rw absent (unfold or_nothing lookup update in Tightens-refl base)
      | inr (os, found) ↦
          rw found (lookup-All (λ o. TightAt key base o) name profile_overrides h found)
    ]

developer_overrides : (key : String) → overrides_for "developer" key ≡ []
unfolding overrides_for
developer_overrides key = refl

resolve_key-Tightens :
    (key profile : String) (found : Option PerformanceBudget)
    → lookup key default_operation_budgets ≡ found
    → Tightens (resolve_key found key profile) (resolve_key found key "developer")
unfolding resolve_key
resolve_key-Tightens key profile none e = Tightens-refl (unclassified key)
resolve_key-Tightens key profile (some base) e = rw (developer_overrides key) (
    unfold update in
    tight_profile key base profile (
      lookup_some-All (λ k b. All (λ p. TightAt k b p.1) profile_overrides) key
        default_operation_budgets table_tightens e))

-- Every profile is at least as strict as the developer profile in every limit of every operation, and
-- changes neither its duration, its invocation class nor its failure mode.
pub resolve_performance_budget-Tightens :
    (operation profile : String)
    → Tightens
        (resolve_performance_budget operation profile)
        (resolve_performance_budget operation "developer")
unfolding resolve_performance_budget
resolve_performance_budget-Tightens operation profile =
    resolve_key-Tightens (operation_key operation) profile (contract_of operation) refl
