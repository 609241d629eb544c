-- ===== src/Retention/Apply.antt =====
-- `apply_retention_plan` of lifecycle.py, and the events that are appended to a ledger.
use workspace_governance_con.Prelude.{
  ℕ, Bool, true, false, Option, none, some, List, [], ◌∷◌, ◌++◌, map, String, if◌then◌else◌,
}
use workspace_governance_con.Prelude.Int.{pos}
use workspace_governance_con.Prelude.Text.{first_characters}
use workspace_governance_con.Value.{Value, int, text, list, dict, nil, end, field, from_list}
use workspace_governance_con.Platform.{Platform}
use workspace_governance_con.Retention.Lines.{Bytes}
use workspace_governance_con.Retention.Disk.{FilePath, Disk, Host, path_text, read, write}
use workspace_governance_con.Retention.Model.{
  Error, Result, ok, err, RetentionCandidate, RetentionPlan,
}
use workspace_governance_con.Retention.Plan.{Places, build_retention_plan}
use workspace_governance_con.Retention.Effects.{
  Outcome, success, failure, blocked, Problem, unconfirmed, compaction_failed,
  ValidationArtifactRef, Deletion, compact_ledger, delete_candidates,
}
use Prim.Native.String.{◌++◌ as ◌<>◌}

abbrev pub outcome_text : Outcome → String
outcome_text success = "success"
outcome_text failure = "failure"
outcome_text blocked = "blocked"

artifact_record : ValidationArtifactRef → Value
artifact_record a = dict (
    field "artifact_id" (text a.artifact_id) (
      field "byte_count" (int (pos a.byte_count)) (
        field "digest" (text a.digest) (
          field "media_type" (text a.media_type)
            (field "path" (text (path_text a.path)) (field "purpose" (text a.purpose) end))))))

abbrev listed {ℓ} : {A : Type ℓ} → Option A → List A
listed none = []
listed (some a) = a ∷ []

-- `_build_lifecycle_ledger_event`
unfoldable pub lifecycle_event :
    Platform → String → Option ValidationArtifactRef → String → Outcome → RetentionPlan → Value
unfolding artifact_record
lifecycle_event p actor export_ref time outcome plan =
    let target : String = "repo:workspace-governance-control-fabric" in
    let payload : Value = dict (
      field "action" (text "lifecycle.retention.applied") (
        field "actor" (text actor) (
          field "event_time" (text time) (
            field "outcome" (text (outcome_text outcome)) (
              field "plan_digest" (text plan.plan_digest)
                (field "plan_id" (text plan.plan_id) (field "target" (text target) end))))))) in
    dict (
      field "action" (text "lifecycle.retention.applied") (
        field "actor" (text actor) (
          field "artifact_refs" (list (from_list (map artifact_record (listed export_ref)))) (
            field "event_id"
              (text ("ledger-event:" <> first_characters 24 (p.sha256_hex (p.dumps payload))))
              (field "event_time" (text time) (
                field "outcome" (text (outcome_text outcome)) (
                  field "record_refs"
                    (list (
                      from_list (
                        dict (
                          field "digest" (text plan.plan_digest) (
                            field "outcome" (text (outcome_text outcome)) (
                              field "record_id" (text plan.plan_id)
                                (field "record_type" (text "retention-plan") end))))
                        ∷ [])))
                    (field "receipt_refs" (list nil) (
                      field "schema_version" (int (pos 1))
                        (field "target" (text target) end))))))))))

-- The line that `append_ledger_event` writes.
unfoldable pub event_line : Platform → Host → Value → Bytes
event_line p host event = host.encode (p.dumps_line event) ++ 10 ∷ []

abbrev pub or_new : Option Bytes → Bytes
or_new none = []
or_new (some b) = b

-- `append_ledger_event` of validation_execution.py: opening a path follows its links, so the line is
-- added where the path resolves to; `none` is the `OSError`.
unfoldable pub append_ledger_event : Platform → Host → FilePath → Value → ℕ → Disk → Option Disk
unfolding event_line read write
append_ledger_event p host ledger_path event now disk =
    let place = host.resolve ledger_path in
    if host.writes ledger_path
    then some (write host place (or_new (read host place disk) ++ event_line p host event) now disk)
    else none

pub record RetentionApplyResult : Type 0 where
  pub applied_at : String
  pub deleted_artifacts : List RetentionCandidate
  pub deleted_receipts : List RetentionCandidate
  pub errors : List Problem
  pub ledger_event : Option Value
  pub ledger_event_path : Option FilePath
  pub ledger_export_ref : Option ValidationArtifactRef
  pub outcome : Outcome
  pub plan : RetentionPlan

-- How an application ends: by the `ValueError` of its plan, with the disk as it was, by the `OSError`
-- of the last append, or with a result.
pub data Applied : Type 0 where
  refused : Error → Applied
  append_failed : Disk → Applied
  applied : RetentionApplyResult → Disk → Applied

abbrev pub is_nil {ℓ} : {A : Type ℓ} → List A → Bool
is_nil [] = true
is_nil (_ ∷ _) = false

module _ (p : Platform) (host : Host) where
  unfoldable pub ended : RetentionApplyResult → Option Disk → Disk → Applied
  ended result none before = append_failed before
  ended result (some after) before = applied result after

  -- The compaction, where the plan requires one.
  unfoldable pub compact_if_required :
      RetentionPlan → ℕ → Disk → List Problem × (Option ValidationArtifactRef × Disk)
  unfolding compact_ledger
  compact_if_required plan now disk =
      if plan.ledger_compaction.action_required
      then (let (ref, disk') = compact_ledger host plan.ledger_compaction now disk in
          (elim ref [ none ↦ compaction_failed ∷ [] | some _ ↦ [] ], (ref, disk')))
      else ([], (none, disk))

  no_deletion : Disk → Deletion
  no_deletion disk = record { deleted = []; problems = []; disk = disk }

  -- What follows a compaction: the deletions if it went well, the event and the result.
  unfoldable pub finish :
      RetentionPlan → String → ℕ → List Problem → Option ValidationArtifactRef → Disk → Applied
  unfolding delete_candidates lifecycle_event append_ledger_event ended no_deletion
  finish plan actor now problems export_ref disk =
      let artifacts =
        if is_nil problems
        then delete_candidates host plan.artifact_candidates disk
        else no_deletion disk in
      let receipts =
        if is_nil problems
        then delete_candidates host plan.receipt_candidates artifacts.disk
        else no_deletion disk in
      let errors = problems ++ (artifacts.problems ++ receipts.problems) in
      let outcome = if is_nil errors then success else failure in
      let time = p.iso_text now in
      let event = lifecycle_event p actor export_ref time outcome plan in
      ended
        (record {
          applied_at = time;
          deleted_artifacts = artifacts.deleted;
          deleted_receipts = receipts.deleted;
          errors = errors;
          ledger_event = some event;
          ledger_event_path = some plan.ledger_path;
          ledger_export_ref = export_ref;
          outcome = outcome;
          plan = plan;
        })
        (append_ledger_event p host plan.ledger_path event now receipts.disk) receipts.disk

  -- An application that is not confirmed.
  unfoldable pub not_confirmed : RetentionPlan → ℕ → Disk → Applied
  not_confirmed plan now disk =
      applied
        (record {
          applied_at = p.iso_text now;
          deleted_artifacts = [];
          deleted_receipts = [];
          errors = unconfirmed ∷ [];
          ledger_event = none;
          ledger_event_path = none;
          ledger_export_ref = none;
          outcome = blocked;
          plan = plan;
        })
        disk

  unfoldable pub apply_plan : Bool → String → ℕ → Result RetentionPlan → Disk → Applied
  unfolding not_confirmed compact_if_required finish
  apply_plan confirm actor now (err e) disk = refused e
  apply_plan false actor now (ok plan) disk = not_confirmed plan now disk
  apply_plan true actor now (ok plan) disk =
      let (problems, (export_ref, disk')) = compact_if_required plan now disk in
      finish plan actor now problems export_ref disk'

  unfoldable pub apply_retention_plan : Places → String → Bool → String → ℕ → Disk → Applied
  unfolding apply_plan build_retention_plan
  apply_retention_plan places actor confirm profile now disk =
      apply_plan confirm actor now (build_retention_plan p host places profile now disk) disk
