-- ===== src/Execution/Run.antt =====
-- `_run_command_check` and the loop of `execute_validation_plan` of validation_execution.py. The receipt's digests and summaries are left out.
use workspace_governance_con.Prelude.{
  ℕ, ◌+◌, Bool, true, Option, none, some, List, [], ◌∷◌, ◌++◌, map, String, lookup, if◌then◌else◌,
}
use workspace_governance_con.Prelude.Int.{ℤ}
use workspace_governance_con.Prelude.Result.{Result, ok, err, ◌>>=◌}
use workspace_governance_con.Value.{Fields, bool, text, get, find, or_else, truthy}
use workspace_governance_con.Platform.{Platform, str}
use workspace_governance_con.Budget.Limits.{ExecutionLimitDecision, coerce_execution_limits}
use workspace_governance_con.Retention.Disk.{FilePath, Host}
use workspace_governance_con.Plan.Model.{
  CheckType, ExecutionMode, skip_fresh_receipt, run, ValidationCheck, planned, ValidationPlan,
}
use workspace_governance_con.Execution.Model.{
  default_execution_profile, Env, BlockReason, unsupported_check_type, AttemptError, CheckError,
  block, attempt_failed, over_budget, Status, success, failure, blocked, skipped_fresh_receipt,
  Attempt, CheckResult,
}
use workspace_governance_con.Execution.Command.{
  Command, keys_of, updated, base_command_env, parse_command, python_first_path,
}
use workspace_governance_con.Execution.Safety.{working_directory, safety_block_reason}
use workspace_governance_con.Execution.Attempts.{
  Process, attempt_of, is_success, attempts_from, last_attempt, observed_bytes, exceeded_budget,
}

-- Where checks run: the process environment, the supplied one, the directory of the interpreter, and
-- what a command does at an attempt, by its arguments, directory, environment and timeout.
pub record Machine : Type 0 where
  pub host : Host
  pub repo_root : FilePath
  pub environ : Env
  pub supplied : Env
  pub python_bin : String
  pub run_process : List String → FilePath → Env → ℕ → ℕ → Process
  pub timeout_seconds : ℕ

-- A command that may run.
pub record Admitted : Type 0 where
  pub command : Command
  pub directory : FilePath

unfoldable pub blocked_result : ValidationCheck → BlockReason → CheckResult
blocked_result check reason = record {
  attempts = [];
  check_id = check.check_id;
  error = some (block reason);
  exit_code = none;
  required = check.required;
  reused_receipt_id = none;
  status = blocked;
  validator_id = check.validator_id;
}

unfoldable pub skipped_result : ValidationCheck → CheckResult
skipped_result check = record {
  attempts = [];
  check_id = check.check_id;
  error = none;
  exit_code = none;
  required = check.required;
  reused_receipt_id = check.receipt_id;
  status = skipped_fresh_receipt;
  validator_id = check.validator_id;
}

abbrev pub exit_of : Option Attempt → Option ℤ
exit_of none = none
exit_of (some a) = a.exit_code

abbrev pub error_of : Option Attempt → Option AttemptError
error_of none = none
error_of (some a) = a.error

abbrev failed_with : Option AttemptError → Option CheckError
failed_with none = none
failed_with (some e) = some (attempt_failed e)

-- The status and the error, by the budget that is exceeded where that fails the check.
unfoldable pub status_of :
    Option ℕ → ℕ → Option ℤ → Option AttemptError → Status × Option CheckError
status_of (some budget) observed exit_code error =
    (failure, some (over_budget error observed budget))
status_of none observed exit_code error =
    (if is_success exit_code error then success else failure, failed_with error)

abbrev pub failing_budget : Bool → Option ℕ → Option ℕ
failing_budget fails exceeded = if fails then exceeded else none

-- The result of the attempts.
unfoldable pub result_of : ValidationCheck → Bool → Option ℕ → List Attempt → CheckResult
unfolding status_of exceeded_budget observed_bytes last_attempt
result_of check fail_on_budget output_budget attempts =
    let last = last_attempt attempts in
    let observed = observed_bytes attempts in
    let (status, error) =
      status_of (failing_budget fail_on_budget (exceeded_budget output_budget observed)) observed
        (exit_of last) (error_of last) in
    record {
      attempts = attempts;
      check_id = check.check_id;
      error = error;
      exit_code = exit_of last;
      required = check.required;
      reused_receipt_id = none;
      status = status;
      validator_id = check.validator_id;
    }

-- `execution_policy.get("prefer_current_python", True) is not False`
unfoldable pub prefers_current_python : Fields → Bool
unfolding find
prefers_current_python execution_policy = elim (find execution_policy "prefer_current_python") [
  | none ↦ true
  | some v ↦ elim v [ bool b ↦ b | _ ↦ true ]
]

unfoldable pub command_env : Machine → Fields → Command → Env
unfolding base_command_env prefers_current_python updated lookup python_first_path
command_env m execution_policy command =
    let base = base_command_env m.environ in
    let with_path =
      if prefers_current_python execution_policy
      then updated base (("PATH", python_first_path m.python_bin (lookup "PATH" base)) ∷ [])
      else base in
    updated (updated with_path m.supplied) command.env_overrides

abbrev pub unless_blocked : Option BlockReason → Admitted → Result BlockReason Admitted
unless_blocked none admitted = ok admitted
unless_blocked (some reason) admitted = err reason

module _ (p : Platform) where
  -- The checks of `_run_command_check` before the command runs.
  unfoldable pub admit : Machine → ValidationCheck → Result BlockReason Admitted
  unfolding parse_command working_directory safety_block_reason
  admit m check = do
    command ← parse_command p check.command
    directory ← working_directory p m.host m.repo_root check.execution_policy
    unless_blocked
        (safety_block_reason p m.host m.repo_root directory command.executable
          (keys_of (m.supplied ++ command.env_overrides)) check.execution_policy)
        (record { command = command; directory = directory })

  unfoldable pub limits_of : Machine → Fields → ExecutionLimitDecision
  unfolding coerce_execution_limits str or_else get
  limits_of m execution_policy =
      coerce_execution_limits execution_policy m.timeout_seconds
        (str p (or_else (get execution_policy "profile") (text default_execution_profile)))

  -- `subprocess.run` at one attempt.
  unfoldable pub attempt_at : Machine → Fields → Admitted → ℕ → Attempt
  unfolding limits_of attempt_of command_env
  attempt_at m execution_policy admitted attempt =
      let timeout = (limits_of m execution_policy).timeout_seconds in
      attempt_of timeout (
        m.run_process (admitted.command.executable ∷ admitted.command.arguments) admitted.directory
          (command_env m execution_policy admitted.command) timeout attempt)

  -- `_run_command_check` of a command that may run.
  unfoldable pub run_admitted : Machine → ValidationCheck → Admitted → CheckResult
  unfolding limits_of attempts_from attempt_at result_of truthy get
  run_admitted m check admitted =
      let limits = limits_of m check.execution_policy in
      result_of check (truthy (get check.execution_policy "fail_on_output_budget_exceeded"))
        limits.output_budget_bytes
        (attempts_from (attempt_at m check.execution_policy admitted) 1 (limits.retry_count + 1))

  unfoldable pub run_command_check : Machine → ValidationCheck → CheckResult
  unfolding admit run_admitted blocked_result
  run_command_check m check = elim (admit m check) [
    | ok admitted ↦ run_admitted m check admitted
    | err reason ↦ blocked_result check reason
  ]

  abbrev by_type : CheckType → Machine → ValidationCheck → CheckResult
  unfolding run_command_check blocked_result
  by_type CheckType.command m check = run_command_check m check
  by_type _ m check = blocked_result check unsupported_check_type

  abbrev by_mode : ExecutionMode → Machine → ValidationCheck → CheckResult
  unfolding run_command_check blocked_result skipped_result
  by_mode skip_fresh_receipt m check = skipped_result check
  by_mode run m check = by_type check.check_type m check

  -- One round of the loop of `execute_validation_plan`.
  unfoldable pub result_for : Machine → ValidationCheck → CheckResult
  unfolding run_command_check blocked_result skipped_result
  result_for m check = by_mode check.execution_mode m check

  -- `check_results`
  unfoldable pub check_results : Machine → ValidationPlan → List CheckResult
  unfolding result_for
  check_results m plan = elim plan.decision.outcome [
    | planned ↦ map (result_for m) plan.checks
    | _ ↦ []
  ]
