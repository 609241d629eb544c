-- ===== src/Execution/Model.antt =====
-- The constants and results of validation_execution.py. The artifacts of a run are held by their size.
use workspace_governance_con.Prelude.{ℕ, Bool, Option, List, [], ◌∷◌, String}
use workspace_governance_con.Prelude.Int.{ℤ}

abbrev pub default_safety_class : String
default_safety_class = "local-read-only"

abbrev pub default_execution_profile : String
default_execution_profile = "developer"

abbrev pub approval_required_classes : List String
approval_required_classes =
    "authority-mutation" ∷ "host-control" ∷ "live-runtime-read" ∷ "materialized-output-write"
    ∷ "network" ∷ "privileged" ∷ "remote-read" ∷ "structured-record-write" ∷ []

abbrev pub supported_safety_classes : List String
supported_safety_classes =
    "authority-mutation" ∷ "host-control" ∷ "live-runtime-read" ∷ "local-artifact-write"
    ∷ "local-read-only" ∷ "materialized-output-write" ∷ "network" ∷ "privileged" ∷ "remote-read"
    ∷ "structured-record-write" ∷ "workspace-cross-repo-read" ∷ []

abbrev pub default_command_env_names : List String
default_command_env_names =
    "HOME" ∷ "LANG" ∷ "LC_ALL" ∷ "PATH" ∷ "PYTHONPATH" ∷ "REQUESTS_CA_BUNDLE" ∷ "SSL_CERT_FILE"
    ∷ "TEMP" ∷ "TMP" ∷ "TMPDIR" ∷ "VIRTUAL_ENV" ∷ []

abbrev pub Env : Type 0
Env = List (String × String)

-- Why a command is not run.
pub data BlockReason : Type 0 where
  unparsed_command no_executable : BlockReason
  no_working_directory outside_repo_root missing_directory : BlockReason
  unsupported_safety_class approval_required executable_not_allowed : String → BlockReason
  outside_allowed_roots : BlockReason
  variable_blocked variable_not_allowed variable_secret : String → BlockReason
  unsupported_check_type : BlockReason

-- The error of an attempt.
pub data AttemptError : Type 0 where
  timed_out : ℕ → AttemptError
  os_error : String → AttemptError

-- The `error` of a check; over its output budget, it keeps the error of the last attempt.
pub data CheckError : Type 0 where
  block : BlockReason → CheckError
  attempt_failed : AttemptError → CheckError
  over_budget : (last : Option AttemptError) (observed budget : ℕ) → CheckError

pub data Status : Type 0 where
  success failure blocked skipped_fresh_receipt : Status

-- One attempt: its exit code, its error, and the sizes of its two streams.
pub record Attempt : Type 0 where
  pub exit_code : Option ℤ
  pub error : Option AttemptError
  pub stdout_bytes : ℕ
  pub stderr_bytes : ℕ

-- `ValidationCheckResult`, with the attempts for `artifact_refs` and `output_summary`.
pub record CheckResult : Type 0 where
  pub attempts : List Attempt
  pub check_id : String
  pub error : Option CheckError
  pub exit_code : Option ℤ
  pub required : Bool
  pub reused_receipt_id : Option String
  pub status : Status
  pub validator_id : String
