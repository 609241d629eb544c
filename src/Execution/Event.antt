-- ===== src/Execution/Event.antt =====
-- `build_validation_ledger_event` of validation_execution.py: the event of a receipt.
use workspace_governance_con.Prelude.{String, List, [], ◌∷◌}
use workspace_governance_con.Prelude.Int.{pos}
use workspace_governance_con.Prelude.Text.{first_characters}
use workspace_governance_con.Value.{Value, Fields, int, text, list, dict, field, end, from_list}
use workspace_governance_con.Platform.{Platform}
use workspace_governance_con.Execution.Outcome.{
  ReceiptOutcome, passed, failed, was_blocked, operator_review_required,
}
use Prim.Native.String.{◌++◌ as ◌<>◌}

abbrev pub outcome_text : ReceiptOutcome → String
outcome_text passed = "success"
outcome_text failed = "failure"
outcome_text was_blocked = "blocked"
outcome_text operator_review_required = "operator_review_required"

-- The action of the event: a run that was carried out, or one that was not.
unfoldable pub action_of : ReceiptOutcome → String
action_of passed = "validation.run.completed"
action_of failed = "validation.run.completed"
action_of _ = "validation.run.blocked"

-- What an event names of a receipt.
pub record ReceiptRef : Type 0 where
  pub receipt_id : String
  pub digest : String
  pub outcome : ReceiptOutcome

abbrev ref_record : ReceiptRef → Value
ref_record r = dict (
    field "digest" (text r.digest) (
      field "outcome" (text (outcome_text r.outcome)) (field "receipt_id" (text r.receipt_id) end)))

-- The event, with its list of artifact references as it is given.
unfoldable pub build_validation_ledger_event :
    Platform → String → List Value → String → ReceiptRef → String → Fields
unfolding action_of from_list first_characters
build_validation_ledger_event p actor artifact_refs event_time receipt target =
    let payload : Value = dict (
      field "action" (text (action_of receipt.outcome)) (
        field "actor" (text actor) (
          field "event_time" (text event_time) (
            field "outcome" (text (outcome_text receipt.outcome)) (
              field "receipt_refs" (list (from_list (ref_record receipt ∷ [])))
                (field "target" (text target) end)))))) in
    field "action" (text (action_of receipt.outcome)) (
      field "actor" (text actor) (
        field "artifact_refs" (list (from_list artifact_refs)) (
          field "event_id"
            (text ("ledger-event:" <> first_characters 24 (p.sha256_hex (p.dumps payload))))
            (field "event_time" (text event_time) (
              field "outcome" (text (outcome_text receipt.outcome)) (
                field "receipt_refs" (list (from_list (ref_record receipt ∷ [])))
                  (field "schema_version" (int (pos 1)) (field "target" (text target) end))))))))
