-- ===== src/Examples/Records.antt =====
-- The theorems about lifecycle.py and canonical_json.py at concrete inputs.
use workspace_governance_con.Prelude.{
  IsSome, ℕ, zero, suc, ◌+◌, ◌-◌, ◌≤◌, ◌<◌, ◌≡◌, refl, ◌↔◌, true, false, not, none, some, List, [],
  ◌∷◌, map, take, drop, ◌*◌, ◌++◌, arith, length, filter, All, if◌then◌else◌,
}
use workspace_governance_con.Prelude.Int.{pos}
use workspace_governance_con.Value.{Fields, int, text, list, dict, nil, cons, end, field}
use workspace_governance_con.Platform.{silent}
use workspace_governance_con.Retention.Lines.{Bytes, splitlines, join}
use workspace_governance_con.Retention.Disk.{
  FilePath, File, Disk, Host, directory, missing, other, path_eq, is_relative_to, read, at,
}
use workspace_governance_con.Retention.Model.{RetentionCandidate, LedgerCompactionPlan}
use workspace_governance_con.Retention.Plan.{Places, absolute, relative, compaction_of}
use workspace_governance_con.Retention.Effects.{
  ValidationArtifactRef, compact_ledger, delete_candidates,
}
use workspace_governance_con.Retention.Apply.{
  Applied, refused, append_failed, applied, RetentionApplyResult, apply_retention_plan,
}
use workspace_governance_con.Retention.Safety.{IsClosed, apply_retention_plan-IsClosed}
use workspace_governance_con.Retention.Compaction.{
  line_count, retained_part, compact_ledger_lossless, compaction_of-within_budget,
}
use workspace_governance_con.Retention.Survivors.{
  targeted, planned_deletions, candidates_of-survivors,
}
use workspace_governance_con.Retention.Deletions.{
  named, deletable, own_problem, delete_candidates-exact,
}
use workspace_governance_con.Canonical.Domain.{canonicalization_errors}
use workspace_governance_con.Canonical.Print.{canonical_json}
use workspace_governance_con.Canonical.Total.{canonical_json-total_iff}
use workspace_governance_con.Canonical.Projection.{
  content_projection, with_digest, content_projection-with_digest,
}

abbrev host : Host
host = record {
  resolve = λ p. p;
  kind = λ p. directory;
  writes = λ p. true;
  unlinks = λ p. true;
  encode = λ s. [];
  sha256_bytes = λ b. "";
}

abbrev ledger : FilePath
ledger = "repo" ∷ "ledger.jsonl" ∷ []

abbrev export : FilePath
export = "repo" ∷ "export.jsonl" ∷ []

-- Three lines, the last without its line feed.
abbrev events : Bytes
events = 97 ∷ 10 ∷ 98 ∷ 13 ∷ 10 ∷ 99 ∷ []

abbrev ledger_file : File
ledger_file = record { path = ledger; modified = 4; content = events }

abbrev old_file : File
old_file = record { path = "repo" ∷ "old" ∷ []; modified = 1; content = [] }

abbrev disk : Disk
disk = ledger_file ∷ old_file ∷ []

abbrev plan : LedgerCompactionPlan
plan = record {
  action_required = true;
  compacted_line_count = 2;
  export_path = some export;
  export_required = true;
  ledger_path = ledger;
  reason = some 2;
  retained_line_count = 1;
  source_digest = none;
  source_line_count = 3;
}

abbrev candidate : RetentionCandidate
candidate = record {
  action = "delete";
  byte_count = 0;
  category = "artifact";
  digest = "";
  modified_at = "";
  path = "repo" ∷ "old" ∷ [];
  reason = [];
  relative_path = "old" ∷ [];
  safe_to_apply = true;
}

abbrev places : Places
places = record {
  repo_root = "repo" ∷ [];
  artifact_root = relative ("artifacts" ∷ []);
  receipt_dir = relative ("receipts" ∷ []);
  ledger_path = absolute ledger;
  export_dir = relative ("exports" ∷ []);
}

compact_ledger_lossless_example :
    (ref : ValidationArtifactRef) × (after : Disk) × (exported : Bytes) × (kept : Bytes)
    × (compact_ledger host plan 9 disk ≡ (some ref, after))
    × (read host export after ≡ some exported)
    × (read host ledger after ≡ some kept)
    × (exported ≡ join (take 2 (splitlines events)))
    × (kept ≡ join (drop 2 (splitlines events)))
    × (exported ++ kept ≡ events)
    × (line_count kept ≤ line_count events - 2)
unfolding read at path_eq
compact_ledger_lossless_example =
    compact_ledger_lossless host plan export events 9 disk refl refl refl refl refl refl refl

compaction_of-within_budget_example :
    let planned = compaction_of host "t" ledger export 2 events in
    ((planned.action_required ≡ true) ↔ (2 < line_count events))
    × (line_count (retained_part planned.compacted_line_count events ++ (100 ∷ 10 ∷ []))
        ≤ (if planned.action_required then 2 else line_count events + 1))
unfolding splitlines
compaction_of-within_budget_example =
    compaction_of-within_budget host "t" ledger export 2 events (100 ∷ 10 ∷ []) (omega arith)
      (omega arith)

candidates_of-survivors_example :
    let survivors =
      filter
        (λ f. not (
          targeted silent host
            ("repo" ∷ [])
            "artifact"
            (planned_deletions silent host ("repo" ∷ []) "artifact" 0 1 4 disk)
            f))
        disk in
    All (λ f. 4 ≤ f.modified + 0 * 86_400_000_000) survivors × (length survivors ≤ 1)
candidates_of-survivors_example =
    candidates_of-survivors silent host ("repo" ∷ []) "artifact" 0 1 4 disk

-- The second candidate lies outside the repository.
abbrev candidates : List RetentionCandidate
candidates = candidate ∷ record candidate { path = "etc" ∷ []; safe_to_apply = false } ∷ []

delete_candidates-exact_example :
    let d = delete_candidates host candidates disk in
    (d.deleted ≡ filter (deletable host) candidates)
    × (d.problems ≡ map (own_problem host) (filter (λ c. not (deletable host c)) candidates))
    × (d.disk ≡ filter (λ f. not (named host (filter (deletable host) candidates) f)) disk)
delete_candidates-exact_example = delete_candidates-exact host candidates disk

-- A ledger of 1001 lines, one more than "ci" keeps, beside an export directory that cannot be written.
abbrev lines_of : ℕ → Bytes
lines_of zero = []
lines_of (suc n) = 10 ∷ lines_of n

abbrev read_only : Host
read_only = record host {
  kind = λ path.
      if path_eq path ("repo" ∷ [])
      then directory
      else if path_eq path ledger
      then other
      else missing;
  writes = λ path. path_eq path ledger;
}

abbrev full_disk : Disk
full_disk = record ledger_file { content = lines_of 1001 } ∷ old_file ∷ []

abbrev IsApplied : Applied → Type 0
IsApplied (applied r after) = Unit
IsApplied _ = ⊥

abbrev result_in : (a : Applied) → IsApplied a → RetentionApplyResult
result_in (applied r after) h = r
result_in (refused e) h = absurd h
result_in (append_failed after) h = absurd h

abbrev disk_in : Applied → Disk
disk_in (applied r after) = after
disk_in (append_failed after) = after
disk_in (refused e) = []

abbrev run : Applied
unfolding apply_retention_plan path_eq splitlines is_relative_to
run = apply_retention_plan silent read_only places "operator" true "ci" 9 full_disk

abbrev failed_result : RetentionApplyResult
unfolding run apply_retention_plan path_eq splitlines is_relative_to
failed_result = result_in run tt

-- The compaction is required and has no export.
compaction_failed_there :
    (failed_result.plan.ledger_compaction.action_required ≡ true)
    × (failed_result.ledger_export_ref ≡ none)
unfolding run failed_result apply_retention_plan path_eq splitlines is_relative_to
compaction_failed_there = (refl, refl)

apply_retention_plan-IsClosed_example : IsClosed full_disk failed_result (disk_in run)
unfolding run failed_result apply_retention_plan path_eq splitlines is_relative_to
apply_retention_plan-IsClosed_example =
    apply_retention_plan-IsClosed silent read_only places "operator" "ci" 9 full_disk failed_result
      (disk_in run) refl

abbrev artifact : Fields
artifact = field "name" (text "packet") (
    field "sizes" (list (cons (int (pos 3)) nil))
      (field "integrity" (dict (field "content_digest" (text "") end)) end))

canonical_json-total_iff_example :
    IsSome (canonical_json silent (dict artifact))
    ↔ (canonicalization_errors (dict artifact) [] ≡ [])
canonical_json-total_iff_example = canonical_json-total_iff silent (dict artifact)

content_projection-with_digest_example :
    (content_projection (with_digest "sha256:1" artifact) ≡ content_projection artifact)
    × (content_projection (content_projection artifact) ≡ content_projection artifact)
content_projection-with_digest_example = content_projection-with_digest "sha256:1" artifact
