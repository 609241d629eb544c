-- ===== src/Execution/Command.antt =====
-- The command of a check and its environment, of validation_execution.py. `shlex.split` is Python's.
use workspace_governance_con.Prelude.{
  ℕ, Bool, true, false, not, ◌&&◌, ◌||◌, ◌==◌, leb, Option, none, some, List, [], ◌∷◌, ◌++◌, map,
  String, str_eq, filter, contains, if◌then◌else◌,
}
use workspace_governance_con.Prelude.Text.{is_empty, join}
use workspace_governance_con.Prelude.Result.{Result, ok, err}
use workspace_governance_con.Plan.Path.{on_first}
use workspace_governance_con.Platform.{Platform}
use workspace_governance_con.Execution.Model.{
  Env, BlockReason, unparsed_command, no_executable, default_command_env_names,
}
use Prim.Native.Char.{code}

abbrev is_letter : ℕ → Bool
is_letter c = (leb 65 c && leb c 90) || (leb 97 c && leb c 122) || c == 95

abbrev is_name_part : ℕ → Bool
is_name_part c = is_letter c || (leb 48 c && leb c 57)

all_name_parts : String → Bool
all_name_parts String.[] = true
all_name_parts (String.◌∷◌ c s) = is_name_part (code c) && all_name_parts s

-- `re.fullmatch(r"[A-Za-z_][A-Za-z0-9_]*", key)`
unfoldable pub is_variable_name : String → Bool
unfolding all_name_parts
is_variable_name String.[] = false
is_variable_name (String.◌∷◌ c s) = is_letter (code c) && all_name_parts s

abbrev longer_key : String → Option (String × String) → Option (String × String)
longer_key c none = none
longer_key (String.◌∷◌ c _) (some (key, value)) = some (String.◌∷◌ c key, value)
longer_key String.[] (some pair) = some pair

-- `value.split("=", 1)`, where there is a "=".
unfoldable pub at_equals : String → Option (String × String)
at_equals String.[] = none
at_equals (String.◌∷◌ c s) =
    let rest = at_equals s in
    if code c == 61 then some ("", s) else longer_key (String.◌∷◌ c String.[]) rest

abbrev if_variable : Option (String × String) → Option (String × String)
if_variable none = none
if_variable (some (key, value)) = if is_variable_name key then some (key, value) else none

-- `_is_env_assignment`: the assignment, where the text is one.
unfoldable pub env_assignment : String → Option (String × String)
unfolding at_equals is_variable_name
env_assignment value = if_variable (at_equals value)

-- The loop of `_parse_command` over the parts.
unfoldable pub take_assignments : List String → Env × List String
unfolding env_assignment
take_assignments [] = ([], [])
take_assignments (part ∷ parts) =
    let (env, rest) = take_assignments parts in
    elim (env_assignment part) [ none ↦ ([], part ∷ parts) | some pair ↦ (pair ∷ env, rest) ]

-- The assignments and the arguments, the executable first.
pub record Command : Type 0 where
  pub env_overrides : Env
  pub executable : String
  pub arguments : List String

unfoldable pub with_executable : Env × List String → Result BlockReason Command
with_executable (env, []) = err no_executable
with_executable (env, part ∷ parts) =
    ok (record { env_overrides = env; executable = part; arguments = parts })

abbrev pub keys_of : Env → List String
keys_of env = map (λ e. e.0) env

-- `env.update(new)`, as a mapping.
unfoldable pub updated : Env → Env → Env
unfolding contains
updated env new = filter (λ e. not (contains e.0 (keys_of new))) env ++ new

-- `_base_command_env`
unfoldable pub base_command_env : Env → Env
unfolding contains
base_command_env environ =
    filter (λ e. contains e.0 default_command_env_names && not (is_empty e.1)) environ

-- `current_path.split(":")`
split_path : String → List String
split_path String.[] = "" ∷ []
split_path (String.◌∷◌ c s) =
    let rest = split_path s in if code c == 58 then "" ∷ rest else on_first c rest

-- `list.remove` of the first one, where there is one.
without_first : String → List String → List String
without_first s [] = []
without_first s (t ∷ ts) = let rest = without_first s ts in if str_eq t s then ts else t ∷ rest

-- `_python_first_path`; `python_bin` is the directory of the interpreter.
unfoldable pub python_first_path : String → Option String → String
unfolding split_path without_first join
python_first_path python_bin none = python_bin
python_first_path python_bin (some current_path) =
    if is_empty current_path
    then python_bin
    else join ":" (python_bin ∷ without_first python_bin (split_path current_path))

module _ (p : Platform) where
  -- `_parse_command`
  unfoldable pub parse_command : String → Result BlockReason Command
  unfolding take_assignments with_executable
  parse_command command = elim (p.split_command command) [
    | none ↦ err unparsed_command
    | some parts ↦ with_executable (take_assignments parts)
  ]
