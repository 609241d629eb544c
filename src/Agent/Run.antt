-- ===== src/Agent/Run.antt =====
-- `build_agent_action_policy_ledger_event` and `run_agent_action_evaluation` of agent_action_policy.py.
use workspace_governance_con.Prelude.{ℕ, Option, none, some, [], ◌∷◌, String}
use workspace_governance_con.Prelude.Int.{pos}
use workspace_governance_con.Prelude.Text.{first_characters, remove_prefix}
use workspace_governance_con.Value.{
  Value, Fields, int, text, list, dict, nil, end, field, get, from_list,
}
use workspace_governance_con.Platform.{Platform, str}
use workspace_governance_con.Retention.Disk.{FilePath, Disk, Host}
use workspace_governance_con.Retention.Apply.{append_ledger_event}
use workspace_governance_con.Agent.Model.{Error, Result, ok, err, ◌>>=◌, Bundle, Now, part}
use workspace_governance_con.Agent.Decide.{digest, evaluate_agent_action_request}
use Prim.Native.String.{◌++◌ as ◌<>◌}

-- How a run ends: by an exception before or at the append, or with the record and its event.
pub data Run : Type 0 where
  raised : Error → Run
  append_failed : Run
  issued : Fields → Value → Disk → Run

module _ (p : Platform) where
  unfoldable pub build_agent_action_policy_ledger_event : String → Fields → Result Value
  unfolding part get str digest remove_prefix first_characters from_list
  build_agent_action_policy_ledger_event actor decision = do
    integrity ← part decision "integrity"
    bindings ← part decision "bindings"
    let decision_ref : Value = dict (
        field "receipt_id" (get decision "decision_id") (
          field "digest" (get integrity "content_digest")
            (field "outcome" (get decision "outcome") end)))
    let target : String =
        str p (get bindings "target_owner_repo") <> ":" <> str p (get bindings "target_resource_id")
    let payload : Value = dict (
        field "action" (text "agent-action.policy-decision.issued") (
          field "actor" (text actor) (
            field "decision_ref" decision_ref
              (field "event_time" (get decision "decided_at") (field "target" (text target) end)))))
    event_digest ← digest p payload
    ok (
        dict (
          field "action" (text "agent-action.policy-decision.issued") (
            field "actor" (text actor) (
              field "artifact_refs" (list nil) (
                field "event_id"
                  (text
                    ("ledger-event:" <> first_characters 24 (remove_prefix "sha256:" event_digest)))
                  (field "event_time" (get decision "decided_at") (
                    field "outcome" (get decision "outcome") (
                      field "receipt_refs" (list (from_list (decision_ref ∷ []))) (
                        field "schema_version" (int (pos 1))
                          (field "target" (text target) end))))))))))

  module _ (host : Host) (b : Bundle) where
    unfoldable pub appended_to : Fields → Value → Option Disk → Run
    appended_to decision event none = append_failed
    appended_to decision event (some disk) = issued decision event disk

    unfoldable pub with_event : FilePath → Fields → Result Value → ℕ → Disk → Run
    unfolding appended_to append_ledger_event
    with_event ledger_path decision (err e) time disk = raised e
    with_event ledger_path decision (ok event) time disk =
        appended_to decision event (append_ledger_event p host ledger_path event time disk)

    unfoldable pub with_decision : String → FilePath → Result Fields → ℕ → Disk → Run
    unfolding with_event build_agent_action_policy_ledger_event
    with_decision actor ledger_path (err e) time disk = raised e
    with_decision actor ledger_path (ok decision) time disk =
        with_event ledger_path decision (build_agent_action_policy_ledger_event actor decision) time
          disk

    -- `time` is the modification time that the disk gives the ledger.
    unfoldable pub run_agent_action_evaluation :
        Value → Value → String → FilePath → Now → ℕ → Disk → Run
    unfolding with_decision evaluate_agent_action_request
    run_agent_action_evaluation request current actor ledger_path now time disk =
        with_decision actor ledger_path (evaluate_agent_action_request p b request current now) time
          disk
