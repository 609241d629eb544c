-- ===== src/Retention/Payload.antt =====
-- The JSON records of lifecycle.py that its digests are taken of.
use workspace_governance_con.Prelude.{ℕ, true, Option, none, some, List, [], ◌∷◌, String}
use workspace_governance_con.Prelude.Int.{pos}
use workspace_governance_con.Value.{Value, null, bool, int, text, dict, end, field}
use workspace_governance_con.Platform.{Platform}
use workspace_governance_con.Retention.Disk.{FilePath, path_text}
use workspace_governance_con.Retention.Model.{
  Reason, older_than, exceeds_count, RetentionThresholds, RetentionCandidate, LedgerCompactionPlan,
  RetentionSummary,
}
use Prim.Native.String.{◌++◌ as ◌<>◌}

abbrev number : ℕ → Value
number n = int (pos n)

abbrev optional {ℓ} : {A : Type ℓ} → (A → Value) → Option A → Value
optional f none = null
optional f (some a) = f a

abbrev path : FilePath → Value
path p = text (path_text p)

module _ (p : Platform) where
  -- `str(n)`
  abbrev decimal : ℕ → String
  decimal n = p.repr (number n)

  reason_text : Reason → String
  reason_text (older_than days) = "older-than-" <> decimal days <> "-days"
  reason_text (exceeds_count count) = "exceeds-" <> decimal count <> "-file-retention-count"

  -- `", ".join(reasons)`
  reasons_text : List Reason → String
  unfolding reason_text
  reasons_text [] = ""
  reasons_text (r ∷ []) = reason_text r
  reasons_text (r ∷ s ∷ rest) = reason_text r <> ", " <> reasons_text (s ∷ rest)

  unfoldable pub candidate_record : RetentionCandidate → Value
  unfolding reasons_text
  candidate_record c = dict (
      field "action" (text c.action) (
        field "byte_count" (number c.byte_count) (
          field "category" (text c.category) (
            field "digest" (text c.digest) (
              field "modified_at" (text c.modified_at) (
                field "path" (path c.path) (
                  field "reason" (text (reasons_text c.reason)) (
                    field "relative_path" (text (path_text c.relative_path))
                      (field "safe_to_apply" (bool c.safe_to_apply) end)))))))))

  budget_text : ℕ → Value
  budget_text n = text ("ledger exceeds " <> decimal n <> " event retention budget")

  unfoldable pub compaction_record : LedgerCompactionPlan → Value
  unfolding budget_text
  compaction_record c = dict (
      field "action_required" (bool c.action_required) (
        field "compacted_line_count" (number c.compacted_line_count) (
          field "export_path" (optional path c.export_path) (
            field "export_required" (bool c.export_required) (
              field "ledger_path" (path c.ledger_path) (
                field "reason" (optional budget_text c.reason) (
                  field "retained_line_count" (number c.retained_line_count) (
                    field "source_digest" (optional text c.source_digest)
                      (field "source_line_count" (number c.source_line_count) end)))))))))

unfoldable pub summary_record : RetentionSummary → Value
summary_record s = dict (
    field "apply_appends_ledger_event" (bool true) (
      field "artifact_delete_count" (number s.artifact_delete_count) (
        field "artifact_delete_bytes" (number s.artifact_delete_bytes) (
          field "ledger_compaction_required" (bool s.ledger_compaction_required) (
            field "ledger_compacted_line_count" (number s.ledger_compacted_line_count) (
              field "mutation_count" (number s.mutation_count) (
                field "receipt_delete_count" (number s.receipt_delete_count)
                  (field "receipt_delete_bytes" (number s.receipt_delete_bytes) end))))))))

unfoldable pub thresholds_record : RetentionThresholds → Value
thresholds_record t = dict (
    field "artifact_max_age_days" (optional number t.artifact_max_age_days) (
      field "artifact_max_count" (number t.artifact_max_count) (
        field "ledger_max_events" (number t.ledger_max_events) (
          field "profile" (text t.profile) (
            field "receipt_max_age_days" (optional number t.receipt_max_age_days) (
              field "receipt_max_count" (number t.receipt_max_count) (
                field "require_ledger_export_before_compaction"
                  (bool t.require_ledger_export_before_compaction) end)))))))
