-- ===== src/Execution/Attempts.antt =====
-- The attempts of a command in `_run_command_check` of validation_execution.py.
use workspace_governance_con.Prelude.{
  ℕ, zero, suc, ◌+◌, Bool, false, ◌==◌, ltb, Option, none, some, List, [], ◌∷◌, String, length,
  if◌then◌else◌,
}
use workspace_governance_con.Prelude.Int.{ℤ, pos}
use workspace_governance_con.Retention.Lines.{Bytes}
use workspace_governance_con.Execution.Model.{AttemptError, timed_out, os_error, Attempt}

-- What `subprocess.run` does: it completes, or it raises.
pub data Process : Type 0 where
  completed : (returncode : ℤ) (stdout stderr : Bytes) → Process
  expired : (stdout stderr : Bytes) → Process
  not_started : String → Process

unfoldable pub attempt_of : ℕ → Process → Attempt
attempt_of timeout (completed returncode stdout stderr) = record {
  exit_code = some returncode;
  error = none;
  stdout_bytes = length stdout;
  stderr_bytes = length stderr;
}
attempt_of timeout (expired stdout stderr) = record {
  exit_code = none;
  error = some (timed_out timeout);
  stdout_bytes = length stdout;
  stderr_bytes = length stderr;
}
attempt_of timeout (not_started message) = record {
  exit_code = none;
  error = some (os_error message);
  stdout_bytes = 0;
  stderr_bytes = 0;
}

abbrev pub is_success : Option ℤ → Option AttemptError → Bool
is_success (some (pos n)) none = n == 0
is_success _ _ = false

-- `attempt_exit_code == 0 and attempt_error is None`
unfoldable pub succeeded : Attempt → Bool
succeeded a = is_success a.exit_code a.error

-- The loop from an attempt on, with the number of attempts that are left. A run of the command may
-- depend on the ones before it: `run` is what happens at each attempt.
unfoldable pub attempts_from : (ℕ → Attempt) → ℕ → ℕ → List Attempt
unfolding succeeded
attempts_from run attempt zero = []
attempts_from run attempt (suc left) =
    let rest = attempts_from run (suc attempt) left in
    if succeeded (run attempt) then run attempt ∷ [] else run attempt ∷ rest

-- The last attempt.
unfoldable pub last_attempt : List Attempt → Option Attempt
last_attempt [] = none
last_attempt (a ∷ []) = some a
last_attempt (a ∷ b ∷ rest) = last_attempt (b ∷ rest)

-- The sum over the artifacts of `_output_budget_decision`.
unfoldable pub observed_bytes : List Attempt → ℕ
observed_bytes [] = 0
observed_bytes (a ∷ rest) = (a.stdout_bytes + a.stderr_bytes) + observed_bytes rest

-- `output_budget_bytes is not None and observed_bytes > output_budget_bytes`: the budget, where it is
-- exceeded.
unfoldable pub exceeded_budget : Option ℕ → ℕ → Option ℕ
exceeded_budget none observed = none
exceeded_budget (some budget) observed = if ltb budget observed then some budget else none
