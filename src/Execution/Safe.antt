-- ===== src/Execution/Safe.antt =====
-- Which commands `_safety_block_reason` of validation_execution.py lets run.
use workspace_governance_con.Prelude.{
  ◌≡◌, ◌↔◌, refl, ◌⊎◌, true, false, not, ◌&&◌, Option, none, List, [], ◌∷◌, String, All, contains,
  sorted_set,
}
use workspace_governance_con.Prelude.Sorting.{Member}
use workspace_governance_con.Value.{Fields, get, truthy}
use workspace_governance_con.Platform.{Platform}
use workspace_governance_con.Budget.Decide.{is_nil}
use workspace_governance_con.Retention.Disk.{FilePath, Host}
use workspace_governance_con.Retention.Candidates.{last_name}
use workspace_governance_con.Plan.Path.{parts}
use workspace_governance_con.Execution.Places.{IsUnder}
use workspace_governance_con.Execution.Model.{
  BlockReason, approval_required_classes, supported_safety_classes,
}
use workspace_governance_con.Execution.Safety.{
  is_secret_like, variable_decision, first_reason, block_if, executable_allowed, string_set,
  env_decision, safety_class, in_allowed_roots, resolve_under, safety_block_reason,
}
use workspace_governance_con.Execution.Blocks.{
  or_next_iff, unless_iff, and_not_iff, if_iff, listed_iff, executable_listed_iff, inside_iff,
}

-- A variable that a policy lets through: not blocked, allowed where there is a list, and a name that
-- looks like a secret only by that list.
pub record IsAllowed (allowed blocked : List String) (key : String) : Type 0 where
  pub not_blocked : contains key blocked ≡ false
  pub listed : (allowed ≡ []) ⊎ (contains key allowed ≡ true)
  pub no_secret : (is_secret_like key ≡ false) ⊎ (contains key allowed ≡ true)

pub record IsSafe (p : Platform) (host : Host) (repo_root current : FilePath) (executable : String)
    (keys : List String) (policy : Fields) : Type 0 where
  pub supported : contains (safety_class p policy) supported_safety_classes ≡ true
  pub approved :
      (contains (safety_class p policy) approval_required_classes ≡ false)
      ⊎ (truthy (get policy "operator_approved") ≡ true)
  pub executable_listed :
      (string_set p (get policy "allowed_executables") ≡ [])
      ⊎ (Member executable (string_set p (get policy "allowed_executables"))
          ⊎ Member (last_name (parts executable)) (string_set p (get policy "allowed_executables")))
  pub inside :
      (string_set p (get policy "allowed_roots") ≡ [])
      ⊎ ((root : String) × Member root (string_set p (get policy "allowed_roots"))
          × IsUnder (host.resolve (resolve_under p host repo_root root)) (host.resolve current))
  pub variables :
      All
        (IsAllowed
          (string_set p (get policy "allowed_env_vars"))
          (string_set p (get policy "blocked_env_vars")))
        (sorted_set keys)

variable_iff :
    (allowed blocked : List String) (key : String)
    → (variable_decision allowed blocked key ≡ none) ↔ IsAllowed allowed blocked key
unfolding variable_decision
variable_iff allowed blocked key = (
  (λ h.
      let (a, h1) = (or_next_iff (block_if (contains key blocked) _) _).0 h in
      let (b, c) =
        (or_next_iff (block_if (not (is_nil allowed) && not (contains key allowed)) _) _).0 h1 in
      record {
        not_blocked = (if_iff _ _).0 a;
        listed = (listed_iff allowed _ _).0 b;
        no_secret = (and_not_iff _ _ _).0 c;
      }),
  λ k. (or_next_iff _ _).1 (
    (if_iff _ _).1 k.not_blocked,
    (or_next_iff _ _).1 ((listed_iff allowed _ _).1 k.listed, (and_not_iff _ _ _).1 k.no_secret),
  ),
)

first_reason-none_iff :
    (decide : String → Option BlockReason) (P : String → Type 0)
    → ((key : String) → (decide key ≡ none) ↔ P key)
    → (keys : List String) → (first_reason decide keys ≡ none) ↔ All P keys
unfolding first_reason
first_reason-none_iff decide P each [] = ((λ h. tt), λ h. refl)
first_reason-none_iff decide P each (key ∷ keys) =
    let (f, g) = first_reason-none_iff decide P each keys in
    let (f', g') = each key in
    let (f'', g'') = or_next_iff (decide key) (first_reason decide keys) in
    ((λ h. let (a, b) = f'' h in (f' a, f b)), λ h. g'' (g' h.0, g h.1))

-- A command is let through exactly where its class is supported and, where that is needed, approved;
-- its executable, or the last name of it, is in the list of the allowed ones, unless that is empty; its
-- directory lies under one of the allowed roots, unless there are none; and every variable that it is
-- given is allowed.
pub safety_block_reason-IsSafe_iff :
    (p : Platform) (host : Host) (repo_root current : FilePath) (executable : String)
    (keys : List String) (policy : Fields)
    → (safety_block_reason p host repo_root current executable keys policy ≡ none)
      ↔ IsSafe p host repo_root current executable keys policy
unfolding safety_block_reason env_decision
safety_block_reason-IsSafe_iff p host repo_root current executable keys policy =
    let variables =
      first_reason-none_iff
        (variable_decision (string_set p (get policy "allowed_env_vars"))
          (string_set p (get policy "blocked_env_vars")))
        (IsAllowed (string_set p (get policy "allowed_env_vars"))
          (string_set p (get policy "blocked_env_vars")))
        (variable_iff (string_set p (get policy "allowed_env_vars"))
          (string_set p (get policy "blocked_env_vars")))
        (sorted_set keys) in
    (
      (λ h.
          let (a, h1) =
            (or_next_iff
                (block_if (not (contains (safety_class p policy) supported_safety_classes)) _) _).0
              h in
          let (b, h2) =
            (or_next_iff
                (block_if
                  (contains (safety_class p policy) approval_required_classes
                    && not (truthy (get policy "operator_approved")))
                  _)
                _).0
              h1 in
          let (c, h3) =
            (or_next_iff
                (block_if
                  (not (is_nil (string_set p (get policy "allowed_executables")))
                    && not (
                        executable_allowed executable
                          (string_set p (get policy "allowed_executables"))))
                  _)
                _).0
              h2 in
          let (d, e) =
            (or_next_iff (block_if (not (in_allowed_roots p host repo_root current policy)) _) _).0
              h3 in
          record {
            supported = (unless_iff _ _).0 a;
            approved = (and_not_iff _ _ _).0 b;
            executable_listed =
                (executable_listed_iff executable (string_set p (get policy "allowed_executables"))
                    _).0
                  c;
            inside =
                (inside_iff p host repo_root current policy).0
                  ((unless_iff (in_allowed_roots p host repo_root current policy) _).0 d);
            variables = variables.0 e;
          }),
      λ k. (or_next_iff _ _).1 (
        (unless_iff _ _).1 k.supported,
        (or_next_iff _ _).1 (
          (and_not_iff _ _ _).1 k.approved,
          (or_next_iff _ _).1 (
            (executable_listed_iff executable (string_set p (get policy "allowed_executables")) _).1
                k.executable_listed,
            (or_next_iff _ _).1 (
              (unless_iff (in_allowed_roots p host repo_root current policy) _).1
                  ((inside_iff p host repo_root current policy).1 k.inside),
              variables.1 k.variables,
            ),
          ),
        ),
      ),
    )
