-- ===== src/Examples/Running.antt =====
-- The theorems about validation_execution.py at concrete inputs.
use workspace_governance_con.Prelude.{
  ◌≡◌, ◌≢◌, ◌↔◌, ◌⊎◌, Bool, true, false, none, some, List, [], ◌∷◌, All, if◌then◌else◌, ◌==◌,
}
use workspace_governance_con.Prelude.Int.{pos}
use workspace_governance_con.Value.{Fields, int, text, list, nil, cons, end, field}
use workspace_governance_con.Platform.{silent}
use workspace_governance_con.Retention.Disk.{FilePath, Host, directory}
use workspace_governance_con.Plan.Model.{
  CheckType, scoped, run, not_allowed, ValidationCheck, Outcome, planned,
}
use workspace_governance_con.Execution.Model.{
  Status, success, skipped_fresh_receipt, Attempt, CheckResult,
}
use workspace_governance_con.Execution.Safety.{safety_block_reason}
use workspace_governance_con.Execution.Attempts.{completed, attempt_of}
use workspace_governance_con.Execution.Run.{Machine, run_command_check, result_of}
use workspace_governance_con.Execution.Outcome.{
  receipt_outcome, passed, IsFine, receipt_outcome-passed_iff,
}
use workspace_governance_con.Execution.Safe.{IsSafe, safety_block_reason-IsSafe_iff}
use workspace_governance_con.Execution.Finished.{EndsWell, IsWithin, printed, result_of-success_iff}
use workspace_governance_con.Execution.Guarded.{IsGuarded, run_command_check-IsGuarded}

abbrev pub repository : FilePath
repository = "repo" ∷ []

abbrev pub host : Host
host = record {
  resolve = λ p. p;
  kind = λ p. directory;
  writes = λ p. true;
  unlinks = λ p. true;
  encode = λ s. [];
  sha256_bytes = λ b. "";
}

-- A command that fails at first and then succeeds.
abbrev pub machine : Machine
machine = record {
  host = host;
  repo_root = repository;
  environ = [];
  supplied = ("API_KEY", "x") ∷ [];
  python_bin = "/bin";
  run_process =
      λ args cwd env timeout attempt. completed (pos (if attempt == 1 then 1 else 0)) [] [];
  timeout_seconds = 60;
}

abbrev policy : Fields
policy = field "allowed_env_vars" (list (cons (text "API_KEY") nil)) (
    field "allowed_executables" (list (cons (text "make") nil))
      (field "allowed_roots" (list (cons (text ".") nil)) (field "retry_count" (int (pos 1)) end)))

abbrev check : ValidationCheck
check = record {
  cache_decision = not_allowed;
  check_id = "check:1";
  check_type = CheckType.command;
  command = "make";
  execution_mode = run;
  execution_policy = policy;
  owner_repo = "fabric";
  receipt_digest = none;
  receipt_id = none;
  required = true;
  reuse_reason = none;
  scopes = "workspace" ∷ [];
  tier = scoped;
  validator_id = "unit";
  reason = "";
}

run_command_check-IsGuarded_example :
    IsGuarded silent machine check (run_command_check silent machine check)
run_command_check-IsGuarded_example = run_command_check-IsGuarded silent machine check

safety_block_reason-IsSafe_iff_example :
    (safety_block_reason silent host repository repository "make" ("API_KEY" ∷ []) policy ≡ none)
    ↔ IsSafe silent host repository repository "make" ("API_KEY" ∷ []) policy
safety_block_reason-IsSafe_iff_example =
    safety_block_reason-IsSafe_iff silent host repository repository "make" ("API_KEY" ∷ []) policy

abbrev result : Status → CheckResult
result status = record {
  attempts = [];
  check_id = "check:1";
  error = none;
  exit_code = none;
  required = true;
  reused_receipt_id = none;
  status = status;
  validator_id = "unit";
}

abbrev results : List CheckResult
results = result success ∷ result skipped_fresh_receipt ∷ []

receipt_outcome-passed_iff_example :
    (receipt_outcome planned results ≡ passed)
    ↔ (Path Outcome planned planned × ((results ≢ []) × All IsFine results))
receipt_outcome-passed_iff_example = receipt_outcome-passed_iff planned results

abbrev silent_success : Attempt
unfolding attempt_of
silent_success = attempt_of 60 (completed (pos 0) [] [])

result_of-success_iff_example :
    ((result_of check true (some 10) (silent_success ∷ [])).status ≡ success) ↔ (
      EndsWell (silent_success ∷ [])
      × ((Path Bool true false) ⊎ IsWithin (some 10) (printed (silent_success ∷ []))))
result_of-success_iff_example = result_of-success_iff check true (some 10) (silent_success ∷ [])
