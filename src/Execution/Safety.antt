-- ===== src/Execution/Safety.antt =====
-- What blocks a command before it runs, of validation_execution.py.
use workspace_governance_con.Prelude.{
  Bool, not, ◌&&◌, ◌||◌, ◌==◌, Option, none, some, List, [], ◌∷◌, ◌++◌, String, any, contains,
  sorted_set, if◌then◌else◌,
}
use workspace_governance_con.Prelude.Text.{lower_char, is_empty, occurs, strip}
use workspace_governance_con.Prelude.Result.{Result, ok, err}
use workspace_governance_con.Value.{Value, Fields, text, get, or_else, truthy}
use workspace_governance_con.Platform.{Platform}
use workspace_governance_con.Budget.Decide.{is_nil}
use workspace_governance_con.Retention.Disk.{FilePath, Host, directory, is_relative_to}
use workspace_governance_con.Retention.Candidates.{last_name}
use workspace_governance_con.Plan.Path.{parts, is_absolute}
use workspace_governance_con.Plan.Scopes.{stripped}
use workspace_governance_con.Plan.Policy.{string_list}
use workspace_governance_con.Execution.Model.{
  default_safety_class, approval_required_classes, supported_safety_classes, BlockReason,
  no_working_directory, outside_repo_root, missing_directory, unsupported_safety_class,
  approval_required, executable_not_allowed, outside_allowed_roots, variable_blocked,
  variable_not_allowed, variable_secret,
}
use Prim.Native.Char.{Char, char, code}

-- One character under `re.I`: the dotted and dotless i are "i", and the long s is "s".
fold_char : Char → Char
unfolding lower_char
fold_char c =
    if code c == 304 || code c == 305
    then char 105 tt
    else if code c == 383
    then char 115 tt
    else lower_char c

fold : String → String
unfolding fold_char
fold String.[] = String.[]
fold (String.◌∷◌ c s) = String.◌∷◌ (fold_char c) (fold s)

abbrev secret_words : List String
secret_words =
    "token" ∷ "secret" ∷ "password" ∷ "passwd" ∷ "credential" ∷ "privatekey" ∷ "private_key"
    ∷ "private-key" ∷ "apikey" ∷ "api_key" ∷ "api-key" ∷ []

-- `SECRET_LIKE_ENV_RE.search(key)`
unfoldable pub is_secret_like : String → Bool
unfolding fold occurs
is_secret_like key = any (λ word. occurs word (fold key)) secret_words

abbrev pub or_next : Option BlockReason → Option BlockReason → Option BlockReason
or_next none next = next
or_next (some r) next = some r

abbrev pub block_if : Bool → BlockReason → Option BlockReason
block_if b r = if b then some r else none

-- The first reason, where there is one.
unfoldable pub first_reason : (String → Option BlockReason) → List String → Option BlockReason
first_reason decide [] = none
first_reason decide (key ∷ keys) = or_next (decide key) (first_reason decide keys)

-- One round of the loop of `_env_decision`.
unfoldable pub variable_decision : List String → List String → String → Option BlockReason
unfolding contains is_secret_like
variable_decision allowed_env_vars blocked_env_vars key =
    or_next (block_if (contains key blocked_env_vars) (variable_blocked key)) (
      or_next
        (block_if (not (is_nil allowed_env_vars) && not (contains key allowed_env_vars))
          (variable_not_allowed key))
        (block_if (is_secret_like key && not (contains key allowed_env_vars))
          (variable_secret key)))

-- `executable in allowed or Path(executable).name in allowed`
unfoldable pub executable_allowed : String → List String → Bool
unfolding contains last_name parts
executable_allowed executable allowed_executables =
    contains executable allowed_executables
    || contains (last_name (parts executable)) allowed_executables

module _ (p : Platform) where
  -- `_string_set`, as its sorted list.
  unfoldable pub string_set : Value → List String
  unfolding string_list
  string_set value = string_list p value

  -- `_env_decision` of the names of the variables.
  unfoldable pub env_decision : List String → Fields → Option BlockReason
  unfolding string_set first_reason variable_decision sorted_set get
  env_decision keys execution_policy =
      first_reason
        (variable_decision (string_set (get execution_policy "allowed_env_vars"))
          (string_set (get execution_policy "blocked_env_vars")))
        (sorted_set keys)

  unfoldable pub safety_class : Fields → String
  unfolding stripped or_else get
  safety_class execution_policy =
      stripped p (or_else (get execution_policy "safety_class") (text default_safety_class))

  -- `Path(text)`, under the repository where it is relative, and resolved.
  unfoldable pub resolve_under : Host → FilePath → String → FilePath
  unfolding is_absolute parts
  resolve_under host repo_root root =
      host.resolve (if is_absolute root then parts root else repo_root ++ parts root)

  -- `_is_relative_to`
  unfoldable pub is_inside : Host → FilePath → FilePath → Bool
  unfolding is_relative_to
  is_inside host path parent = is_relative_to (host.resolve path) (host.resolve parent)

  -- `_allowed_root_decision`: whether the directory is in a root that the policy allows.
  unfoldable pub in_allowed_roots : Host → FilePath → FilePath → Fields → Bool
  unfolding string_set resolve_under is_inside get
  in_allowed_roots host repo_root working_directory execution_policy =
      let allowed_roots = string_set (get execution_policy "allowed_roots") in
      is_nil allowed_roots
      || any (λ root. is_inside host working_directory (resolve_under host repo_root root))
          allowed_roots

  unfoldable pub checked_directory : Host → FilePath → FilePath → Result BlockReason FilePath
  unfolding is_inside
  checked_directory host repo_root resolved =
      if not (is_inside host resolved repo_root)
      then err outside_repo_root
      else elim (host.kind resolved) [ directory ↦ ok resolved | _ ↦ err missing_directory ]

  unfoldable pub directory_of : Host → FilePath → Value → Result BlockReason FilePath
  unfolding checked_directory resolve_under strip
  directory_of host repo_root (text raw) =
      if is_empty (strip raw)
      then err no_working_directory
      else checked_directory host repo_root (resolve_under host repo_root (strip raw))
  directory_of host repo_root _ = err no_working_directory

  -- `_working_directory`
  unfoldable pub working_directory : Host → FilePath → Fields → Result BlockReason FilePath
  unfolding directory_of or_else get
  working_directory host repo_root execution_policy =
      directory_of host repo_root (or_else (get execution_policy "working_directory") (text "."))

  -- `_safety_block_reason`: the reason of the block. The variables are given by their names.
  unfoldable pub safety_block_reason :
      Host → FilePath → FilePath → String → List String → Fields → Option BlockReason
  unfolding safety_class contains truthy get string_set executable_allowed in_allowed_roots
      env_decision
  safety_block_reason host repo_root current executable keys execution_policy =
      let class = safety_class execution_policy in
      let allowed_executables = string_set (get execution_policy "allowed_executables") in
      or_next
        (block_if (not (contains class supported_safety_classes)) (unsupported_safety_class class))
        (or_next
          (block_if
            (contains class approval_required_classes
              && not (truthy (get execution_policy "operator_approved")))
            (approval_required class))
          (or_next
            (block_if
              (not (is_nil allowed_executables)
                && not (executable_allowed executable allowed_executables))
              (executable_not_allowed executable))
            (or_next
              (block_if (not (in_allowed_roots host repo_root current execution_policy))
                outside_allowed_roots)
              (env_decision keys execution_policy))))
