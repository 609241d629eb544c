-- ===== src/Retention/Effects.antt =====
-- The two mutations of lifecycle.py, `_compact_ledger` and `_delete_candidates`, and what they report.
use workspace_governance_con.Prelude.{
  ℕ, not, Option, none, some, List, [], ◌∷◌, String, length, take, drop, if◌then◌else◌,
}
use workspace_governance_con.Prelude.Text.{first_characters}
use workspace_governance_con.Retention.Lines.{Bytes, splitlines, join}
use workspace_governance_con.Retention.Disk.{FilePath, Disk, Host, read, write, unlink}
use workspace_governance_con.Retention.Model.{RetentionCandidate, LedgerCompactionPlan}
use Prim.Native.String.{◌++◌ as ◌<>◌}

pub data Outcome : Type 0 where
  success failure blocked : Outcome

-- The texts of the errors that an application collects.
pub data Problem : Type 0 where
  unconfirmed : Problem
  compaction_failed : Problem
  unsafe_candidate : FilePath → Problem
  delete_failed : FilePath → Problem

pub record ValidationArtifactRef : Type 0 where
  pub artifact_id : String
  pub byte_count : ℕ
  pub digest : String
  pub media_type : String
  pub path : FilePath
  pub purpose : String

pub record Deletion : Type 0 where
  pub deleted : List RetentionCandidate
  pub problems : List Problem
  pub disk : Disk

module _ (host : Host) where
  unfoldable pub artifact_ref : FilePath → Bytes → ValidationArtifactRef
  artifact_ref export_path export_bytes =
      let hex = host.sha256_bytes export_bytes in
      record {
        artifact_id = "artifact:" <> first_characters 24 hex;
        byte_count = length export_bytes;
        digest = "sha256:" <> hex;
        media_type = "application/x-ndjson";
        path = export_path;
        purpose = "ledger-compaction-export";
      }

  -- The two writes, the export first; the second result is what happened to the disk before an error.
  unfoldable pub write_both :
      FilePath → Bytes → FilePath → Bytes → ℕ → Disk → Option ValidationArtifactRef × Disk
  unfolding artifact_ref write
  write_both export_path export_bytes ledger_path retained now disk =
      let exported = write host export_path export_bytes now disk in
      if host.writes export_path
      then (if host.writes ledger_path
          then (
            some (artifact_ref export_path export_bytes),
            write host ledger_path retained now exported,
          )
          else (none, exported))
      else (none, disk)

  unfoldable pub split_and_write :
      Option Bytes
      → LedgerCompactionPlan
      → FilePath
      → ℕ
      → Disk
      → Option ValidationArtifactRef × Disk
  unfolding write_both
  split_and_write none plan export_path now disk = (none, disk)
  split_and_write (some source) plan export_path now disk =
      let lines = splitlines source in
      write_both export_path (join (take plan.compacted_line_count lines)) plan.ledger_path
        (join (drop plan.compacted_line_count lines)) now disk

  unfoldable pub export_to :
      Option FilePath → LedgerCompactionPlan → ℕ → Disk → Option ValidationArtifactRef × Disk
  unfolding split_and_write
  export_to none plan now disk = (none, disk)
  export_to (some export_path) plan now disk =
      split_and_write (read host plan.ledger_path disk) plan export_path now disk

  -- `_compact_ledger` of a plan that requires it; `none` is the `OSError`.
  unfoldable pub compact_ledger :
      LedgerCompactionPlan → ℕ → Disk → Option ValidationArtifactRef × Disk
  unfolding export_to
  compact_ledger plan now disk = export_to plan.export_path plan now disk

  -- `_delete_candidates`
  unfoldable pub delete_candidates : List RetentionCandidate → Disk → Deletion
  unfolding unlink
  delete_candidates [] disk = record { deleted = []; problems = []; disk = disk }
  delete_candidates (c ∷ cs) disk =
      let skipped = delete_candidates cs disk in
      let gone = delete_candidates cs (unlink host c.path disk) in
      if not c.safe_to_apply
      then record skipped { problems = unsafe_candidate c.path ∷ skipped.problems }
      else if host.unlinks c.path
      then record gone { deleted = c ∷ gone.deleted }
      else record skipped { problems = delete_failed c.relative_path ∷ skipped.problems }
