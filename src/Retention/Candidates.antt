-- ===== src/Retention/Candidates.antt =====
-- `_retention_candidates` and `_candidate_from_path` of lifecycle.py: which files a plan would delete.
use workspace_governance_con.Prelude.{
  ℕ, ◌+◌, ◌-◌, ◌*◌, Bool, true, not, ◌&&◌, ◌||◌, Option, none, some, List, [], ◌∷◌, map, String,
  str_eq, ltb, ◌==◌, filter, length, take, if◌then◌else◌,
}
use workspace_governance_con.Prelude.Sorting.{sort_by}
use workspace_governance_con.Prelude.Text.{ends_with, text_le}
use workspace_governance_con.Platform.{Platform}
use workspace_governance_con.Retention.Disk.{
  FilePath, File, Disk, Kind, missing, directory, other, Host, path_eq, is_relative_to, path_text,
}
use workspace_governance_con.Retention.Model.{
  not_a_directory, Result, ok, err, Reason, older_than, exceeds_count, RetentionCandidate,
}
use Prim.Native.String.{◌++◌ as ◌<>◌}

-- The `rglob` patterns that the program uses.
pub data Pattern : Type 0 where
  every_file : Pattern  -- "*"
  json_files : Pattern  -- "*.json"

unfoldable pub last_name : FilePath → String
last_name [] = ""
last_name (a ∷ []) = a
last_name (_ ∷ b ∷ rest) = last_name (b ∷ rest)

unfoldable pub matches : Pattern → FilePath → Bool
unfolding ends_with last_name
matches every_file path = true
matches json_files path = ends_with ".json" (last_name path)

-- `path in scan_root.rglob(pattern)`, and it resolves to a place inside the repository.
unfoldable pub in_scan : Host → FilePath → FilePath → Pattern → File → Bool
unfolding matches
in_scan host root scan_root pattern file =
    is_relative_to file.path scan_root
    && not (path_eq file.path scan_root)
    && matches pattern file.path
    && is_relative_to (host.resolve file.path) root

-- The sort key `(st_mtime, str(path))`.
unfoldable pub older_first : File → File → Bool
older_first a b =
    ltb a.modified b.modified
    || (a.modified == b.modified && text_le (path_text a.path) (path_text b.path))

unfoldable pub scan : Host → FilePath → FilePath → Pattern → Disk → List File
unfolding in_scan
scan host root scan_root pattern disk =
    sort_by older_first (filter (in_scan host root scan_root pattern) disk)

abbrev pub microseconds_per_day : ℕ
microseconds_per_day = 86_400_000_000

-- `modified_at < now - timedelta(days=days)`
unfoldable pub is_older : ℕ → ℕ → File → Bool
is_older now days file = ltb (file.modified + days * microseconds_per_day) now

abbrev pub ReasonsByPath : Type 0
ReasonsByPath = List (File × List Reason)

-- `reasons_by_path.setdefault(path, set()).add(reason)`. The reasons of a file are kept sorted: the
-- only one added to a file that is there already comes first in the alphabet.
unfoldable pub add_reason : File → Reason → ReasonsByPath → ReasonsByPath
add_reason f reason [] = (f, reason ∷ []) ∷ []
add_reason f reason ((g, reasons) ∷ rest) =
    if path_eq f.path g.path
    then (g, reason ∷ reasons) ∷ rest
    else (g, reasons) ∷ add_reason f reason rest

unfoldable pub add_all : Reason → List File → ReasonsByPath → ReasonsByPath
add_all reason [] dict = dict
add_all reason (f ∷ fs) dict = add_all reason fs (add_reason f reason dict)

unfoldable pub aged : Option ℕ → ℕ → List File → ReasonsByPath
aged none now files = []
aged (some days) now files = add_all (older_than days) (filter (is_older now days) files) []

-- `files[: len(files) - max_count]` where there are more than `max_count`.
unfoldable pub excess : ℕ → List File → List File
excess max_count files = take (length files - max_count) files

unfoldable pub reasons_by_path : Option ℕ → ℕ → ℕ → List File → ReasonsByPath
unfolding aged excess
reasons_by_path max_age_days max_count now files =
    add_all (exceeds_count max_count) (excess max_count files) (aged max_age_days now files)

-- `path.relative_to(root)` of a path inside the root.
unfoldable pub below : FilePath → FilePath → FilePath
below path [] = path
below [] (_ ∷ _) = []
below (_ ∷ rest) (_ ∷ root) = below rest root

unfoldable pub candidate_from_path :
    Platform → Host → FilePath → String → File × List Reason → RetentionCandidate
candidate_from_path p host root category (file, reasons) = record {
  action = "delete";
  byte_count = length file.content;
  category = category;
  digest = "sha256:" <> host.sha256_bytes file.content;
  modified_at = p.iso_text file.modified;
  path = host.resolve file.path;
  reason = reasons;
  relative_path = below (host.resolve file.path) root;
  safe_to_apply = is_relative_to (host.resolve file.path) root;
}

-- The sort key `(modified_at, relative_path)`, of texts.
candidate_le : RetentionCandidate → RetentionCandidate → Bool
candidate_le a b =
    if str_eq a.modified_at b.modified_at
    then text_le (path_text a.relative_path) (path_text b.relative_path)
    else text_le a.modified_at b.modified_at

unfoldable pub candidates_of :
    Platform → Host → FilePath → String → Option ℕ → ℕ → ℕ → List File → List RetentionCandidate
unfolding candidate_le
candidates_of p host root category max_age_days max_count now files = sort_by candidate_le (
    map (candidate_from_path p host root category)
      (reasons_by_path max_age_days max_count now files))

module _ (p : Platform) (host : Host) (root : FilePath) where
  select : Kind → String → Option ℕ → ℕ → ℕ → List File → Result (List RetentionCandidate)
  unfolding candidates_of
  select missing category max_age_days max_count now files = ok []
  select other category max_age_days max_count now files = err (not_a_directory category)
  select directory category max_age_days max_count now files =
      ok (candidates_of p host root category max_age_days max_count now files)

  -- The test `max_count < 0` never holds of the table's counts.
  unfoldable pub retention_candidates :
      String → Option ℕ → ℕ → ℕ → FilePath → Pattern → Disk → Result (List RetentionCandidate)
  unfolding select scan
  retention_candidates category max_age_days max_count now scan_root pattern disk =
      select (host.kind scan_root) category max_age_days max_count now
        (scan host root scan_root pattern disk)
