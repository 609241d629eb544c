-- ===== src/Execution/Guarded.antt =====
-- What `_run_command_check` of validation_execution.py guards before and while a command runs.
use workspace_governance_con.Prelude.{
  ℕ, zero, suc, ◌+◌, ◌≤◌, ◌≡◌, refl, ◌⊎◌, inl, inr, Bool, true, false, Option, none, some, List, [],
  ◌∷◌, ◌++◌, length, arith, if◌then◌else◌,
}
use mathlib.Core.Path.{subst}
use workspace_governance_con.Prelude.Result.{Result, ok, err, bound, guarded, ok-injective}
use workspace_governance_con.Value.{
  Value, Fields, null, bool, int, float, text, list, dict, get, or_else,
}
use workspace_governance_con.Retention.Disk.{FilePath, Kind}
use workspace_governance_con.Platform.{Platform}
use workspace_governance_con.Plan.Model.{ValidationCheck}
use workspace_governance_con.Execution.Model.{
  BlockReason, outside_repo_root, no_working_directory, missing_directory, blocked, Attempt,
  CheckResult,
}
use workspace_governance_con.Execution.Places.{IsUnder, is_relative_to-IsUnder_iff}
use workspace_governance_con.Execution.Attempts.{attempt_of, succeeded, attempts_from}
use workspace_governance_con.Execution.Command.{keys_of, parse_command}
use workspace_governance_con.Execution.Safety.{
  is_inside, checked_directory, directory_of, working_directory,
}
use workspace_governance_con.Execution.Run.{
  Machine, Admitted, admit, limits_of, command_env, attempt_at, run_admitted, run_command_check,
  result_of, unless_blocked, blocked_result,
}
use workspace_governance_con.Execution.Bounded.{Tries, attempts_from-Tries}
use workspace_governance_con.Execution.Safe.{IsSafe, safety_block_reason-IsSafe_iff}

directory_or_missing :
    (k : Kind) (resolved d : FilePath)
    → Path
        (Result BlockReason FilePath)
        (elim k [ Kind.directory ↦ ok resolved | _ ↦ err missing_directory ])
        (ok d)
    → (k ≡ Kind.directory) × (resolved ≡ d)
directory_or_missing Kind.directory resolved d h = (refl, ok-injective resolved d h)
directory_or_missing Kind.missing resolved d h = cc
directory_or_missing Kind.other resolved d h = cc

-- Attempts that are what happens at numbered runs in a row.
abbrev pub RunsFrom : (ℕ → Attempt) → ℕ → List Attempt → Type 0
RunsFrom run n [] = Unit
RunsFrom run n (a ∷ rest) = (a ≡ run n) × RunsFrom run (suc n) rest

RunsFrom-if :
    (b : Bool) (run : ℕ → Attempt) (n : ℕ) (rest : List Attempt)
    → RunsFrom run (suc n) rest
    → RunsFrom run n (if b then run n ∷ [] else run n ∷ rest)
RunsFrom-if true run n rest h = (refl, tt)
RunsFrom-if false run n rest h = (refl, h)

attempts_from-RunsFrom :
    (run : ℕ → Attempt) (n left : ℕ) → RunsFrom run n (attempts_from run n left)
unfolding attempts_from
attempts_from-RunsFrom run n zero = tt
attempts_from-RunsFrom run n (suc left) =
    RunsFrom-if (succeeded (run n)) run n (attempts_from run (suc n) left)
      (attempts_from-RunsFrom run (suc n) left)

module _ (p : Platform) (m : Machine) (check : ValidationCheck) where
  -- A command that is parsed, runs in a directory that exists under the repository root, and is safe.
  pub record IsAdmitted (a : Admitted) : Type 0 where
    pub parsed : parse_command p check.command ≡ ok a.command
    pub directory : working_directory p m.host m.repo_root check.execution_policy ≡ ok a.directory
    pub inside : IsUnder (m.host.resolve m.repo_root) (m.host.resolve a.directory)
    pub exists_as : m.host.kind a.directory ≡ Kind.directory
    pub safe :
        IsSafe p m.host m.repo_root a.directory a.command.executable
          (keys_of (m.supplied ++ a.command.env_overrides))
          check.execution_policy

  -- A directory that is checked lies under the repository root, and is one.
  checked_directory-found :
      (resolved d : FilePath)
      → checked_directory p m.host m.repo_root resolved ≡ ok d
      → IsUnder (m.host.resolve m.repo_root) (m.host.resolve d) × (m.host.kind d ≡ Kind.directory)
  unfolding checked_directory is_inside
  checked_directory-found resolved d h =
      let (inside, rest) = guarded _ outside_repo_root _ d h in
      let (there, same) = directory_or_missing (m.host.kind resolved) resolved d rest in
      subst
        (λ e.
          IsUnder (m.host.resolve m.repo_root) (m.host.resolve e)
          × (m.host.kind e ≡ Kind.directory))
        same
        (
          (is_relative_to-IsUnder_iff (m.host.resolve resolved) (m.host.resolve m.repo_root)).0
              (ground arith),
          there,
        )

  directory_of-found :
      (v : Value) (d : FilePath)
      → directory_of p m.host m.repo_root v ≡ ok d
      → IsUnder (m.host.resolve m.repo_root) (m.host.resolve d) × (m.host.kind d ≡ Kind.directory)
  unfolding directory_of
  directory_of-found (text raw) d h =
      let (named, rest) = guarded _ no_working_directory _ d h in checked_directory-found _ d rest
  directory_of-found null d h = cc
  directory_of-found (bool b) d h = cc
  directory_of-found (int i) d h = cc
  directory_of-found (float x) d h = cc
  directory_of-found (list vs) d h = cc
  directory_of-found (dict fs) d h = cc

  working_directory-found :
      (policy : Fields) (d : FilePath)
      → working_directory p m.host m.repo_root policy ≡ ok d
      → IsUnder (m.host.resolve m.repo_root) (m.host.resolve d) × (m.host.kind d ≡ Kind.directory)
  unfolding working_directory
  working_directory-found policy d h =
      directory_of-found (or_else (get policy "working_directory") (text ".")) d h

  unblocked :
      (o : Option BlockReason) (a b : Admitted) → unless_blocked o a ≡ ok b → (o ≡ none) × (a ≡ b)
  unblocked none a b h = (refl, ok-injective a b h)
  unblocked (some r) a b h = cc

  admit-IsAdmitted : (a : Admitted) → admit p m check ≡ ok a → IsAdmitted a
  unfolding admit
  admit-IsAdmitted a h =
      let (command, ec, h1) = bound (parse_command p check.command) _ a h in
      let (directory, ed, h2) =
        bound (working_directory p m.host m.repo_root check.execution_policy) _ a h1 in
      let (safe, same) = unblocked _ (record { command = command; directory = directory }) a h2 in
      let (inside, there) = working_directory-found check.execution_policy directory ed in
      subst IsAdmitted same (record {
        parsed = ec;
        directory = ed;
        inside = inside;
        exists_as = there;
        safe =
            (safety_block_reason-IsSafe_iff p m.host m.repo_root directory command.executable _ _).0
              safe;
      })

  -- How often a command may be tried.
  abbrev pub allowance : ℕ
  allowance = (limits_of p m check.execution_policy).retry_count + 1

  -- What happens at a run of a command: its executable with its arguments in its directory.
  abbrev pub run_of : Admitted → ℕ → Attempt
  run_of a n =
      let timeout = (limits_of p m check.execution_policy).timeout_seconds in
      attempt_of timeout (
        m.run_process (a.command.executable ∷ a.command.arguments) a.directory
          (command_env m check.execution_policy a.command) timeout n)

  -- No attempt and a block, or attempts of an admitted command within their allowance.
  abbrev pub IsGuarded : CheckResult → Type 0
  IsGuarded r =
      ((r.attempts ≡ []) × (r.status ≡ blocked))
      ⊎ ((a : Admitted) × IsAdmitted a
          × RunsFrom (run_of a) 1 r.attempts
          × Tries allowance r.attempts
          × (length r.attempts ≤ allowance))

  result-IsGuarded :
      (o : Result BlockReason Admitted)
      → admit p m check ≡ o
      → IsGuarded
          (elim o [ ok a ↦ run_admitted p m check a | err reason ↦ blocked_result check reason ])
  unfolding run_admitted result_of blocked_result attempt_at
  result-IsGuarded (ok a) e =
      let (tries, within) =
        attempts_from-Tries (attempt_at p m check.execution_policy a) 1 allowance in
      inr (a, admit-IsAdmitted a e, attempts_from-RunsFrom (run_of a) 1 allowance, tries, within)
  result-IsGuarded (err reason) e = inl (refl, refl)

  -- A check runs its command only where the command is admitted: parsed from the check, safe, and in a
  -- directory that exists under the repository root. Then its attempts are the runs of that very command
  -- in that directory, numbered from 1, until one succeeds, at most one more than the retries that the
  -- budget leaves. Otherwise the check is blocked, and runs nothing.
  pub run_command_check-IsGuarded : IsGuarded (run_command_check p m check)
  unfolding run_command_check
  run_command_check-IsGuarded = result-IsGuarded (admit p m check) refl
