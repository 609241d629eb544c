-- ===== src/Plan/Policy.antt =====
-- `_validator_execution_policy` of validation_planning.py: what of a validator's policy a check keeps.
use workspace_governance_con.Prelude.{
  ℕ, not, Option, none, some, List, [], ◌∷◌, ◌++◌, map, String, filter, sorted_set,
}
use workspace_governance_con.Prelude.Int.{pos}
use workspace_governance_con.Prelude.Text.{is_empty}
use workspace_governance_con.Value.{
  Value, Fields, text, int, bool, list, dict, field, end, get, find, items_of, texts, truthy,
}
use workspace_governance_con.Platform.{Platform, optional_str}
use workspace_governance_con.Budget.Limits.{optional_int}
use workspace_governance_con.Plan.Scopes.{stripped}

abbrev pub Entries : Type 0
Entries = List (String × Value)

unfoldable pub fields_of : Entries → Fields
fields_of [] = end
fields_of ((k, v) ∷ rest) = field k v (fields_of rest)

abbrev entry_if {ℓ} : {A : Type ℓ} → (A → Value) → String → Option A → Entries
entry_if f key none = []
entry_if f key (some a) = (key, f a) ∷ []

-- `_bounded_int` of a field, kept where it is an integer that is not below the minimum.
unfoldable pub number_field : Fields → String → ℕ → Entries
unfolding optional_int get
number_field raw_policy key minimum =
    entry_if (λ n. int (pos n)) key (optional_int (get raw_policy key) minimum)

unfoldable pub flag_field : Fields → String → Entries
unfolding find truthy
flag_field raw_policy key = entry_if (λ v. bool (truthy v)) key (find raw_policy key)

module _ (p : Platform) where
  unfoldable pub text_field : Fields → String → Entries
  unfolding optional_str get
  text_field raw_policy key = entry_if text key (optional_str p (get raw_policy key))

  -- `_string_list`
  unfoldable pub string_list : Value → List String
  unfolding stripped items_of sorted_set
  string_list (text s) = sorted_set (filter (λ t. not (is_empty t)) (stripped p (text s) ∷ []))
  string_list (list vs) =
      sorted_set (filter (λ t. not (is_empty t)) (map (stripped p) (items_of vs)))
  string_list _ = []

  abbrev list_entry : String → List String → Entries
  unfolding texts
  list_entry key [] = []
  list_entry key (s ∷ ss) = (key, texts (s ∷ ss)) ∷ []

  unfoldable pub list_field : Fields → String → Entries
  unfolding string_list get texts
  list_field raw_policy key = list_entry key (string_list (get raw_policy key))

  unfoldable pub policy_of : Fields → Entries
  unfolding number_field flag_field text_field list_field
  policy_of raw_policy =
      number_field raw_policy "timeout_seconds" 1
      ++ (number_field raw_policy "retry_count" 0
          ++ (number_field raw_policy "output_budget_bytes" 0
              ++ (number_field raw_policy "max_duration_ms" 1
                  ++ (flag_field raw_policy "fail_on_output_budget_exceeded"
                      ++ (flag_field raw_policy "operator_approved"
                          ++ (text_field raw_policy "invocation_class"
                              ++ (text_field raw_policy "profile"
                                  ++ (text_field raw_policy "safety_class"
                                      ++ (text_field raw_policy "self_validation_role"
                                          ++ (text_field raw_policy "working_directory"
                                              ++ (flag_field raw_policy "prefer_current_python"
                                                  ++ (list_field raw_policy "allowed_env_vars"
                                                      ++ (list_field raw_policy
                                                            "allowed_executables"
                                                          ++ (list_field raw_policy "allowed_roots"
                                                            ++ list_field raw_policy
                                                            "blocked_env_vars"))))))))))))))

  -- `_validator_execution_policy`
  unfoldable pub validator_execution_policy : Fields → Fields
  unfolding policy_of get fields_of
  validator_execution_policy validator = elim (get validator "execution_policy") [
    | dict raw_policy ↦ fields_of (policy_of raw_policy)
    | _ ↦ end
  ]
