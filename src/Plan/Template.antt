-- ===== src/Plan/Template.antt =====
-- The command templates of validation_planning.py. `str.format` and the class `\d` of `re` are Python's.
use workspace_governance_con.Prelude.{
  Bool, true, not, ◌&&◌, ◌==◌, Option, none, some, List, [], ◌∷◌, String, filter, contains,
  sorted_set, if◌then◌else◌,
}
use workspace_governance_con.Prelude.Text.{
  starts_with, remove_prefix, is_empty, count_char, occurs, join,
}
use workspace_governance_con.Prelude.Result.{Result, ok, err}
use workspace_governance_con.Platform.{Platform}
use workspace_governance_con.Budget.Decide.{is_nil}
use workspace_governance_con.Policy.Flags.{is_none}
use workspace_governance_con.Plan.Model.{ValidationTarget, PlanError, format_error}
use Prim.Native.Char.{code}
use Prim.Native.String.{◌++◌ as ◌<>◌}

abbrev pub allowed_command_template_fields : List String
allowed_command_template_fields =
    "art_delivery_id" ∷ "target_id" ∷ "target_scope" ∷ "target_type" ∷ []

-- A field that ends here, where one began.
abbrev ended : Option String → List String → List String
ended none rest = rest
ended (some run) rest = if is_empty run then rest else run ∷ rest

abbrev extended : Option String → String → Option String
extended none c = none
extended (some run) c = some (run <> c)

-- `re.findall(r"{([^{}]+)}", command)`, with what was read since the last opening brace.
unfoldable pub fields_from : String → Option String → List String
fields_from String.[] run = []
fields_from (String.◌∷◌ c s) run =
    let opened = fields_from s (some "") in
    let closed = ended run (fields_from s none) in
    let more = fields_from s (extended run (String.◌∷◌ c String.[])) in
    if code c == 123 then opened else if code c == 125 then closed else more

unfoldable pub template_fields : String → List String
unfolding fields_from
template_fields command = fields_from command none

module _ (p : Platform) where
  all_decimal : String → Bool
  all_decimal String.[] = true
  all_decimal (String.◌∷◌ c s) = p.is_decimal (code c) && all_decimal s

  -- `_art_delivery_id`
  unfoldable pub art_delivery_id : ValidationTarget → Option String
  unfolding starts_with remove_prefix all_decimal
  art_delivery_id target =
      let digits = remove_prefix "art:delivery-" target.scope in
      if starts_with "art:delivery-" target.scope && not (is_empty digits) && all_decimal digits
      then some digits
      else none

  -- `_command_template_target_error`
  unfoldable pub command_template_target_error : String → ValidationTarget → Option String
  unfolding count_char template_fields contains sorted_set occurs art_delivery_id join
  command_template_target_error command target =
      let invalid_fields = sorted_set (
        filter (λ field. not (contains field allowed_command_template_fields))
          (template_fields command)) in
      if not (count_char 123 command == count_char 125 command)
      then some "validator command template has unbalanced braces"
      else if not (is_nil invalid_fields)
      then some
          ("validator command template contains unsupported fields: " <> join ", " invalid_fields)
      else if not (occurs "{art_delivery_id}" command)
      then none
      else if is_none (art_delivery_id target)
      then some "validator command template requires a concrete art:delivery-<id> target scope"
      else none

  abbrev or_nothing : Option String → String
  or_nothing none = ""
  or_nothing (some s) = s

  -- `_render_validator_command`
  unfoldable pub render_validator_command : String → ValidationTarget → Result PlanError String
  unfolding art_delivery_id
  render_validator_command command target =
      elim (p.format command (
        ("art_delivery_id", or_nothing (art_delivery_id target))
        ∷ ("target_id", target.target_id)
        ∷ ("target_scope", target.scope)
        ∷ ("target_type", target.target_type)
        ∷ [])) [ none ↦ err format_error | some rendered ↦ ok rendered ]
