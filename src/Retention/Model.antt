-- ===== src/Retention/Model.antt =====
-- The records of lifecycle.py, its errors and the table of retention profiles.
use workspace_governance_con.Prelude.{
  ℕ, Bool, true, Option, none, some, List, [], ◌∷◌, String, lookup,
}
use workspace_governance_con.Prelude.Text.{strip, lower}
use workspace_governance_con.Retention.Disk.{FilePath}
use workspace_governance_con.Budget.Resolve.{or_text}

-- The `ValueError`s that the plan raises.
pub data Error : Type 0 where
  unknown_profile : String → Error
  no_repo_root : Error
  outside_repo : String → Error
  not_a_directory : String → Error
  ledger_not_a_file : Error
  not_planned : Error

pub data Result {ℓ} (A : Type ℓ) : Type ℓ where
  ok : A → Result A
  err : Error → Result A

infixl 5 ◌>>=◌
abbrev pub ◌>>=◌ {ℓ κ} : {A : Type ℓ} {B : Type κ} → Result A → (A → Result B) → Result B
ok a >>= f = f a
err e >>= f = err e

pub record RetentionThresholds : Type 0 where
  pub artifact_max_age_days : Option ℕ
  pub artifact_max_count : ℕ
  pub ledger_max_events : ℕ
  pub profile : String
  pub receipt_max_age_days : Option ℕ
  pub receipt_max_count : ℕ
  pub require_ledger_export_before_compaction : Bool

abbrev thresholds : String → ℕ → ℕ → ℕ → ℕ → ℕ → RetentionThresholds
thresholds profile artifact_age artifact_count ledger receipt_age receipt_count = record {
  artifact_max_age_days = some artifact_age;
  artifact_max_count = artifact_count;
  ledger_max_events = ledger;
  profile = profile;
  receipt_max_age_days = some receipt_age;
  receipt_max_count = receipt_count;
  require_ledger_export_before_compaction = true;
}

abbrev pub retention_profiles : List (String × RetentionThresholds)
retention_profiles =
    ("developer", thresholds "developer" 14 500 5000 30 500)
    ∷ ("ci", thresholds "ci" 7 200 1000 14 200)
    ∷ ("enterprise", thresholds "enterprise" 90 10000 50000 365 10000)
    ∷ []

known_or_error : String → Option RetentionThresholds → Result RetentionThresholds
known_or_error profile none = err (unknown_profile profile)
known_or_error profile (some t) = ok t

unfoldable pub retention_thresholds : String → Result RetentionThresholds
unfolding known_or_error lookup strip lower or_text
retention_thresholds profile =
    known_or_error profile (lookup (lower (strip (or_text profile "developer"))) retention_profiles)

-- f"older-than-{days}-days" and f"exceeds-{count}-file-retention-count"
pub data Reason : Type 0 where
  older_than : ℕ → Reason
  exceeds_count : ℕ → Reason

pub record RetentionCandidate : Type 0 where
  pub action : String
  pub byte_count : ℕ
  pub category : String
  pub digest : String
  pub modified_at : String
  pub path : FilePath
  pub reason : List Reason
  pub relative_path : FilePath
  pub safe_to_apply : Bool

pub record LedgerCompactionPlan : Type 0 where
  pub action_required : Bool
  pub compacted_line_count : ℕ
  pub export_path : Option FilePath
  pub export_required : Bool
  pub ledger_path : FilePath
  pub reason : Option ℕ  -- f"ledger exceeds {max_events} event retention budget"
  pub retained_line_count : ℕ
  pub source_digest : Option String
  pub source_line_count : ℕ

pub record RetentionSummary : Type 0 where
  pub artifact_delete_count : ℕ
  pub artifact_delete_bytes : ℕ
  pub ledger_compaction_required : Bool
  pub ledger_compacted_line_count : ℕ
  pub mutation_count : ℕ
  pub receipt_delete_count : ℕ
  pub receipt_delete_bytes : ℕ

pub record RetentionPlan : Type 0 where
  pub artifact_candidates : List RetentionCandidate
  pub artifact_root : FilePath
  pub generated_at : String
  pub ledger_compaction : LedgerCompactionPlan
  pub ledger_path : FilePath
  pub plan_digest : String
  pub plan_id : String
  pub profile : String
  pub receipt_candidates : List RetentionCandidate
  pub receipt_dir : FilePath
  pub repo_root : FilePath
  pub requires_confirmation : Bool
  pub schema_version : ℕ
  pub summary : RetentionSummary
  pub thresholds : RetentionThresholds
