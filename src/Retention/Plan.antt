-- ===== src/Retention/Plan.antt =====
-- `build_retention_plan`, `_build_ledger_compaction_plan` and `_resolve_local_path` of lifecycle.py.
use workspace_governance_con.Prelude.{
  ℕ, ◌+◌, ◌-◌, true, false, Option, none, some, List, [], ◌∷◌, ◌++◌, map, String, leb, length,
  if◌then◌else◌,
}
use workspace_governance_con.Prelude.Text.{first_characters, without_characters}
use workspace_governance_con.Value.{text, list, dict, end, field, from_list}
use workspace_governance_con.Platform.{Platform}
use workspace_governance_con.Retention.Lines.{Bytes, splitlines}
use workspace_governance_con.Retention.Disk.{
  FilePath, Disk, Kind, missing, directory, other, Host, is_relative_to, path_text, read,
}
use workspace_governance_con.Retention.Model.{
  no_repo_root, outside_repo, ledger_not_a_file, Result, ok, err, ◌>>=◌, retention_thresholds,
  RetentionCandidate, LedgerCompactionPlan, RetentionSummary, RetentionPlan,
}
use workspace_governance_con.Retention.Candidates.{retention_candidates, every_file, json_files}
use workspace_governance_con.Retention.Payload.{
  candidate_record, compaction_record, summary_record, thresholds_record,
}
use Prim.Native.String.{◌++◌ as ◌<>◌}

-- A path argument: absolute, or relative to the repository.
pub data PathArgument : Type 0 where
  absolute relative : FilePath → PathArgument

joined : FilePath → PathArgument → FilePath
joined root (absolute p) = p
joined root (relative p) = root ++ p

unfoldable pub resolve_local_path : Host → FilePath → PathArgument → String → Result FilePath
unfolding joined
resolve_local_path host root value label =
    let resolved = host.resolve (joined root value) in
    if is_relative_to resolved root then ok resolved else err (outside_repo label)

-- The plan where nothing is to be done.
abbrev no_compaction : FilePath → ℕ → Option String → LedgerCompactionPlan
no_compaction ledger_path count digest = record {
  action_required = false;
  compacted_line_count = 0;
  export_path = none;
  export_required = false;
  ledger_path = ledger_path;
  reason = none;
  retained_line_count = count;
  source_digest = digest;
  source_line_count = count;
}

-- The name of the export: the time without ":" and "-", and 16 digits of the ledger's digest.
export_name : String → String → String
unfolding without_characters first_characters
export_name generated_at hex =
    "ledger-export-"
    <> without_characters 58 45 generated_at
    <> "-"
    <> first_characters 16 hex
    <> ".jsonl"

-- The plan for a ledger that is there and is a file.
unfoldable pub compaction_of :
    Host → String → FilePath → FilePath → ℕ → Bytes → LedgerCompactionPlan
unfolding export_name splitlines
compaction_of host generated_at ledger_path export_dir max_events source =
    let count = length (splitlines source) in
    let retained = max_events - 1 in
    let hex = host.sha256_bytes source in
    if leb count max_events
    then no_compaction ledger_path count (some ("sha256:" <> hex))
    else record {
      action_required = true;
      compacted_line_count = count - retained;
      export_path = some (export_dir ++ export_name generated_at hex ∷ []);
      export_required = true;
      ledger_path = ledger_path;
      reason = some max_events;
      retained_line_count = retained;
      source_digest = some ("sha256:" <> hex);
      source_line_count = count;
    }

abbrev or_empty : Option Bytes → Bytes
or_empty none = []
or_empty (some b) = b

compaction_at : Kind → Host → String → FilePath → FilePath → ℕ → Bytes → Result LedgerCompactionPlan
unfolding compaction_of
compaction_at missing host time ledger dir max_events b = ok (no_compaction ledger 0 none)
compaction_at directory host time ledger dir max_events b = err ledger_not_a_file
compaction_at other host time ledger dir max_events b =
    ok (compaction_of host time ledger dir max_events b)

-- The test `max_events < 1` never holds of the table's counts.
unfoldable pub build_ledger_compaction_plan :
    Host → String → FilePath → FilePath → ℕ → Disk → Result LedgerCompactionPlan
unfolding compaction_at
build_ledger_compaction_plan host generated_at ledger_path export_dir max_events disk =
    compaction_at (host.kind ledger_path) host generated_at ledger_path export_dir max_events
      (or_empty (read host ledger_path disk))

total_bytes : List RetentionCandidate → ℕ
total_bytes [] = 0
total_bytes (c ∷ cs) = c.byte_count + total_bytes cs

unfoldable pub summary_of :
    List RetentionCandidate → List RetentionCandidate → LedgerCompactionPlan → RetentionSummary
unfolding total_bytes
summary_of artifacts receipts compaction = record {
  artifact_delete_count = length artifacts;
  artifact_delete_bytes = total_bytes artifacts;
  ledger_compaction_required = compaction.action_required;
  ledger_compacted_line_count = compaction.compacted_line_count;
  mutation_count =
      length artifacts + length receipts + (if compaction.action_required then 1 else 0);
  receipt_delete_count = length receipts;
  receipt_delete_bytes = total_bytes receipts;
}

-- The arguments of `build_retention_plan` but the profile and the time.
pub record Places : Type 0 where
  pub repo_root : FilePath
  pub artifact_root : PathArgument
  pub receipt_dir : PathArgument
  pub ledger_path : PathArgument
  pub export_dir : PathArgument

module _ (p : Platform) (host : Host) where
  existing_root : FilePath → Kind → Result FilePath
  existing_root root directory = ok root
  existing_root root missing = err no_repo_root
  existing_root root other = err no_repo_root

  unfoldable pub build_retention_plan : Places → String → ℕ → Disk → Result RetentionPlan
  unfolding existing_root resolve_local_path retention_thresholds retention_candidates
      build_ledger_compaction_plan summary_of
  build_retention_plan places profile now disk = do
    root ← existing_root (host.resolve places.repo_root) (host.kind (host.resolve places.repo_root))
    let generated_at = p.iso_text now
    limits ← retention_thresholds profile
    artifact_path ← resolve_local_path host root places.artifact_root "artifact_root"
    receipt_path ← resolve_local_path host root places.receipt_dir "receipt_dir"
    ledger_file ← resolve_local_path host root places.ledger_path "ledger_path"
    export_path ← resolve_local_path host root places.export_dir "export_dir"
    artifacts ←
        retention_candidates p host root "artifact" limits.artifact_max_age_days
          limits.artifact_max_count now artifact_path every_file disk
    receipts ←
        retention_candidates p host root "receipt" limits.receipt_max_age_days
          limits.receipt_max_count now receipt_path json_files disk
    compaction ←
        build_ledger_compaction_plan host generated_at ledger_file export_path
          limits.ledger_max_events disk
    let summary = summary_of artifacts receipts compaction
    let payload = dict (
        field "artifact_candidates" (list (from_list (map (candidate_record p) artifacts))) (
          field "artifact_root" (text (path_text artifact_path)) (
            field "generated_at" (text generated_at) (
              field "ledger_compaction" (compaction_record p compaction) (
                field "ledger_path" (text (path_text ledger_file)) (
                  field "profile" (text limits.profile) (
                    field "receipt_candidates"
                      (list (from_list (map (candidate_record p) receipts)))
                      (field "receipt_dir" (text (path_text receipt_path)) (
                        field "summary" (summary_record summary)
                          (field "thresholds" (thresholds_record limits) end))))))))))
    let hex = p.sha256_hex (p.dumps payload)
    ok (record {
      artifact_candidates = artifacts;
      artifact_root = artifact_path;
      generated_at = generated_at;
      ledger_compaction = compaction;
      ledger_path = ledger_file;
      plan_digest = "sha256:" <> hex;
      plan_id = "retention-plan:" <> first_characters 24 hex;
      profile = limits.profile;
      receipt_candidates = receipts;
      receipt_dir = receipt_path;
      repo_root = root;
      requires_confirmation = true;
      schema_version = 1;
      summary = summary;
      thresholds = limits;
    })
