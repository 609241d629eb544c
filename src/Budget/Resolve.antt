-- ===== src/Budget/Resolve.antt =====
-- `resolve_performance_budget` of performance_budgets.py: the contract of an operation and a profile.
use workspace_governance_con.Prelude.{
  ℕ, Bool, Option, none, some, List, [], ◌∷◌, String, ◌==◌, leb, ◌&&◌, ◌||◌, lookup, if◌then◌else◌,
}
use workspace_governance_con.Prelude.Text.{strip, strip_by, lower, is_empty}
use workspace_governance_con.Budget.Table.{
  PerformanceBudget, contract, offline_advisory, LimitField, max_page_size, max_graph_nodes,
  max_graph_edges, max_selected_checks, receipt_freshness_seconds, max_output_budget_bytes,
  max_retry_count, default_operation_budgets, profile_overrides,
}
use Prim.Native.Char.{char, code}
use Prim.Native.String.{◌++◌}

-- `str.isalnum` of one ASCII character.
is_alnum : ℕ → Bool
is_alnum c = (leb 48 c && leb c 57) || (leb 65 c && leb c 90) || (leb 97 c && leb c 122)

dashed : String → String
unfolding is_alnum
dashed String.[] = String.[]
dashed (String.◌∷◌ c s) = String.◌∷◌ (if is_alnum (code c) then c else char 45 tt) (dashed s)

-- `a or b` on texts.
unfoldable pub or_text : String → String → String
or_text a b = if is_empty a then b else a

-- Exact on ASCII operation names.
safe_token : String → String
unfolding dashed lower strip_by or_text
safe_token value = or_text (strip_by (λ c. c == 45) (dashed (lower value))) "operation"

unfoldable pub operation_key : String → String
unfolding strip or_text
operation_key operation = or_text (strip operation) "unknown"

unfoldable pub unclassified : String → PerformanceBudget
unfolding safe_token
unclassified key =
    contract ("budget:unclassified-" ++ safe_token key ++ "-v1") key offline_advisory
      "classify_operation_before_synchronous_gate" 0 "classification_required"

-- `record.update(overrides)` for one entry.
unfoldable pub override : LimitField × ℕ → PerformanceBudget → PerformanceBudget
override (max_page_size, n) b = record b { max_page_size = some n }
override (max_graph_nodes, n) b = record b { max_graph_nodes = some n }
override (max_graph_edges, n) b = record b { max_graph_edges = some n }
override (max_selected_checks, n) b = record b { max_selected_checks = some n }
override (receipt_freshness_seconds, n) b = record b { receipt_freshness_seconds = some n }
override (max_output_budget_bytes, n) b = record b { max_output_budget_bytes = some n }
override (max_retry_count, n) b = record b { max_retry_count = some n }

unfoldable pub update : List (LimitField × ℕ) → PerformanceBudget → PerformanceBudget
unfolding override
update [] b = b
update (o ∷ rest) b = update rest (override o b)

-- `….get(key, {})`.
unfoldable pub or_nothing {ℓ} : {A : Type ℓ} → Option (List A) → List A
or_nothing none = []
or_nothing (some xs) = xs

unfoldable pub overrides_for : String → String → List (LimitField × ℕ)
unfolding lookup or_nothing strip or_text
overrides_for profile key =
    or_nothing
      (lookup key (or_nothing (lookup (strip (or_text profile "developer")) profile_overrides)))

unfoldable pub resolve_key : Option PerformanceBudget → String → String → PerformanceBudget
unfolding unclassified update overrides_for
resolve_key none key profile = unclassified key
resolve_key (some base) key profile = update (overrides_for profile key) base

unfoldable pub resolve_performance_budget : String → String → PerformanceBudget
unfolding operation_key resolve_key lookup
resolve_performance_budget operation profile =
    let key = operation_key operation in
    resolve_key (lookup key default_operation_budgets) key profile

-- Whether the table has a contract for the operation.
abbrev pub contract_of : String → Option PerformanceBudget
contract_of operation = lookup (operation_key operation) default_operation_budgets
