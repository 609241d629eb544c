-- ===== src/Budget/Table.antt =====
-- The budget contracts of performance_budgets.py and the overrides of each profile.
use workspace_governance_con.Prelude.{ℕ, Option, none, some, List, [], ◌∷◌, String}

pub data InvocationClass : Type 0 where
  inline_fast receipt_check hard_gate checkpoint_batch offline_advisory : InvocationClass

pub record PerformanceBudget : Type 0 where
  pub budget_id : String
  pub operation : String
  pub invocation_class : InvocationClass
  pub recommended_action : String
  pub max_duration_ms : ℕ
  pub failure_mode : String
  pub max_graph_edges : Option ℕ
  pub max_graph_nodes : Option ℕ
  pub max_output_budget_bytes : Option ℕ
  pub max_page_size : Option ℕ
  pub max_retry_count : Option ℕ
  pub max_selected_checks : Option ℕ
  pub max_timeout_seconds : Option ℕ
  pub receipt_freshness_seconds : Option ℕ

-- The constructor call with the optional limits left at their default, `None`.
abbrev pub contract : String → String → InvocationClass → String → ℕ → String → PerformanceBudget
contract budget_id operation invocation_class recommended_action max_duration_ms failure_mode =
    record {
      budget_id = budget_id;
      operation = operation;
      invocation_class = invocation_class;
      recommended_action = recommended_action;
      max_duration_ms = max_duration_ms;
      failure_mode = failure_mode;
      max_graph_edges = none;
      max_graph_nodes = none;
      max_output_budget_bytes = none;
      max_page_size = none;
      max_retry_count = none;
      max_selected_checks = none;
      max_timeout_seconds = none;
      receipt_freshness_seconds = none;
    }

abbrev pub art_continuation : PerformanceBudget
art_continuation =
    record (contract "budget:art-continuation-inline-v1" "art.continuation" inline_fast
      "evaluate_cached_compact_context" 750 "advisory_on_timeout") {
        max_graph_edges = some 150;
        max_graph_nodes = some 100;
        max_page_size = some 50;
      }

abbrev pub art_complete : PerformanceBudget
art_complete =
    contract "budget:art-complete-hard-gate-v1" "art.complete" hard_gate
      "fail_closed_before_mutation" 5000 "fail_closed"

abbrev pub art_blocker : PerformanceBudget
art_blocker =
    contract "budget:art-blocker-hard-gate-v1" "art.blocker" hard_gate "fail_closed_before_mutation"
      5000 "fail_closed"

abbrev pub art_risk : PerformanceBudget
art_risk =
    contract "budget:art-risk-hard-gate-v1" "art.risk" hard_gate "fail_closed_before_mutation" 5000
      "fail_closed"

abbrev pub artifact_output : PerformanceBudget
artifact_output =
    record (contract "budget:artifact-output-checkpoint-v1" "artifact.output" checkpoint_batch
      "write_artifacts_and_project_compact_refs" 30000 "record_and_route_owner") {
        max_output_budget_bytes = some 500_000;
      }

abbrev pub draft_submit : PerformanceBudget
draft_submit =
    record (contract "budget:draft-submit-receipt-check-v1" "draft.submit" receipt_check
      "verify_payload_digest_and_fresh_receipt" 250 "require_revalidation_receipt") {
        receipt_freshness_seconds = some 900;
      }

abbrev pub draft_validate : PerformanceBudget
draft_validate =
    record (contract "budget:draft-validate-inline-v1" "draft.validate" inline_fast
      "validate_schema_and_emit_receipt" 1000 "return_findings_without_mutation") {
        receipt_freshness_seconds = some 900;
      }

abbrev pub graph_query : PerformanceBudget
graph_query =
    record (contract "budget:graph-query-inline-v1" "graph.query" inline_fast
      "paginate_compact_graph_slice" 500 "paginate_or_narrow_scope") {
        max_graph_edges = some 100;
        max_graph_nodes = some 50;
        max_page_size = some 50;
      }

abbrev pub projection_sync : PerformanceBudget
projection_sync =
    contract "budget:projection-sync-checkpoint-v1" "projection.sync" checkpoint_batch
      "batch_at_projection_checkpoint" 60_000 "record_dirty_and_retry_checkpoint"

abbrev pub quality_full : PerformanceBudget
quality_full =
    contract "budget:quality-full-checkpoint-v1" "quality.full" checkpoint_batch
      "run_batch_quality_gate" 60_000 "block_final_quality_claim"

abbrev pub validation_plan : PerformanceBudget
validation_plan =
    record (contract "budget:validation-plan-inline-v1" "validation.plan" inline_fast
      "build_compact_plan" 1000 "route_to_checkpoint_batch") { max_selected_checks = some 20 }

abbrev pub validation_run : PerformanceBudget
validation_run =
    record (contract "budget:validation-run-hard-gate-v1" "validation.run" hard_gate
      "run_bounded_checks_and_emit_receipt" 120_000 "emit_failure_receipt") {
        max_output_budget_bytes = some 500_000;
        max_retry_count = some 3;
        max_timeout_seconds = some 120;
      }

abbrev pub default_operation_budgets : List (String × PerformanceBudget)
default_operation_budgets =
    ("art.continuation", art_continuation)
    ∷ ("art.complete", art_complete)
    ∷ ("art.blocker", art_blocker)
    ∷ ("art.risk", art_risk)
    ∷ ("artifact.output", artifact_output)
    ∷ ("draft.submit", draft_submit)
    ∷ ("draft.validate", draft_validate)
    ∷ ("graph.query", graph_query)
    ∷ ("projection.sync", projection_sync)
    ∷ ("quality.full", quality_full)
    ∷ ("validation.plan", validation_plan)
    ∷ ("validation.run", validation_run)
    ∷ []

-- The overrides name fields of the contract.
pub data LimitField : Type 0 where
  max_page_size max_graph_nodes max_graph_edges max_selected_checks : LimitField
  receipt_freshness_seconds max_output_budget_bytes max_retry_count : LimitField

abbrev pub profile_overrides : List (String × List (String × List (LimitField × ℕ)))
profile_overrides =
    (
      "casual",
      (
        "graph.query",
        (LimitField.max_page_size, 25)
            ∷ (LimitField.max_graph_nodes, 25)
            ∷ (LimitField.max_graph_edges, 50)
            ∷ [],
      )
          ∷ ("validation.plan", (LimitField.max_selected_checks, 5) ∷ [])
          ∷ [],
    )
    ∷ (
      "enterprise",
      ("draft.submit", (LimitField.receipt_freshness_seconds, 300) ∷ [])
          ∷ (
            "validation.run",
            (LimitField.max_output_budget_bytes, 250_000) ∷ (LimitField.max_retry_count, 1) ∷ [],
          )
          ∷ [],
    )
    ∷ []
