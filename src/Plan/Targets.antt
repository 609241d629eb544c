-- ===== src/Plan/Targets.antt =====
-- The target of a plan and the scopes that satisfy it, of validation_planning.py.
use workspace_governance_con.Prelude.{
  Bool, true, false, not, ◌&&◌, ◌||◌, ◌==◌, Option, none, some, List, [], ◌∷◌, map, String, str_eq,
  any, contains, if◌then◌else◌,
}
use workspace_governance_con.Prelude.Text.{
  strip, rstrip_by, remove_prefix, starts_with, ends_with, without_last, slashes, characters,
  is_empty,
}
use workspace_governance_con.Prelude.Result.{Result, ok, err}
use workspace_governance_con.Value.{Value, Fields, text, list, dict, field, end, items_of}
use workspace_governance_con.Plan.Path.{slash, parts, is_absolute, posix_text}
use workspace_governance_con.Plan.Model.{
  ValidationTarget, PlanError, empty_target, unsupported_target, no_relative_path, no_target_id,
  type_error,
}
use Prim.Native.String.{◌++◌ as ◌<>◌}

abbrev pub known_target_prefixes : List String
known_target_prefixes =
    "authority:" ∷ "component:" ∷ "projection:" ∷ "profile:" ∷ "repo:" ∷ "validator:" ∷ "art:"
    ∷ "release:" ∷ "changed-file:" ∷ []

-- `_normalize_changed_file_target`, once `raw_path` is read: its second half.
unfoldable pub changed_file_target : String → Result PlanError ValidationTarget
unfolding posix_text is_absolute parts
changed_file_target raw_path =
    let path = posix_text raw_path in
    if is_absolute raw_path || is_empty raw_path || contains ".." (parts raw_path)
    then err no_relative_path
    else if is_empty path || str_eq path "."
    then err no_relative_path
    else ok
        (record { scope = "changed-file:" <> path; target_type = "changed-file"; target_id = path })

-- `_normalize_changed_file_target`
unfoldable pub normalize_changed_file_target : String → Result PlanError ValidationTarget
unfolding changed_file_target remove_prefix strip slashes
normalize_changed_file_target scope =
    changed_file_target (slashes (strip (remove_prefix "changed-file:" scope)))

abbrev prefixed_target : String → String → String → Result PlanError ValidationTarget
prefixed_target scope prefix target_id =
    if is_empty target_id
    then err (no_target_id prefix)
    else ok (record { scope = scope; target_type = without_last prefix; target_id = target_id })

-- The loop over the known prefixes.
unfoldable pub by_prefix : String → List String → Result PlanError ValidationTarget
unfolding starts_with remove_prefix strip without_last
by_prefix scope [] = err unsupported_target
by_prefix scope (prefix ∷ prefixes) =
    let later = by_prefix scope prefixes in
    if starts_with prefix scope
    then prefixed_target scope prefix (strip (remove_prefix prefix scope))
    else later

unfoldable pub stripped_target : String → Result PlanError ValidationTarget
unfolding starts_with normalize_changed_file_target by_prefix
stripped_target scope =
    if is_empty scope
    then err empty_target
    else if str_eq scope "workspace"
    then ok (record { scope = scope; target_type = "workspace"; target_id = "workspace" })
    else if starts_with "changed-file:" scope
    then normalize_changed_file_target scope
    else by_prefix scope known_target_prefixes

unfoldable pub normalize_validation_target : String → Result PlanError ValidationTarget
unfolding stripped_target strip
normalize_validation_target target_scope = stripped_target (strip target_scope)

-- `_scope_matches`
unfoldable pub scope_matches : String → String → Bool
unfolding ends_with without_last starts_with
scope_matches declared_scope target_scope =
    let prefix = without_last declared_scope in
    if str_eq declared_scope target_scope
    then true
    else if ends_with "*" declared_scope
    then not (is_empty prefix)
      && starts_with prefix target_scope
      && not (str_eq target_scope prefix)
    else false

-- `_scope_sets_match`; a list stands for the set of its entries.
unfoldable pub scope_sets_match : List String → List String → Bool
unfolding scope_matches
scope_sets_match declared_scopes target_scopes =
    any (λ declared. any (scope_matches declared) target_scopes) declared_scopes

-- `_is_supported_scope`
unfoldable pub is_supported_scope : String → Bool
unfolding starts_with remove_prefix strip
is_supported_scope scope =
    str_eq scope "workspace"
    || any
        (λ prefix. starts_with prefix scope && not (is_empty (strip (remove_prefix prefix scope))))
        known_target_prefixes

-- `_path_matches_source_paths`
unfoldable pub path_matches_source_paths : String → List String → Bool
unfolding starts_with rstrip_by
path_matches_source_paths changed_path source_paths =
    any
      (λ source_path.
        is_empty source_path
        || str_eq source_path "."
        || str_eq changed_path source_path
        || starts_with (rstrip_by (λ c. c == slash) source_path <> "/") changed_path)
      source_paths

-- The loop of `_profile_scope_for_path` over the parts of a path.
unfoldable pub profile_scope_of : List String → Option String
unfolding strip
profile_scope_of [] = none
profile_scope_of (_ ∷ []) = none
profile_scope_of (_ ∷ _ ∷ []) = none
profile_scope_of (a ∷ b ∷ c ∷ rest) =
    let later = profile_scope_of (b ∷ c ∷ rest) in
    if str_eq a "dev-integration" && str_eq b "profiles" && not (is_empty (strip c))
    then some ("profile:" <> strip c)
    else later

keys : Fields → List Value
keys end = []
keys (field k v rest) = text k ∷ keys rest

-- What a `for` over a value yields.
unfoldable pub iterate : Value → Result PlanError (List Value)
unfolding keys items_of characters
iterate (list vs) = ok (items_of vs)
iterate (dict fs) = ok (keys fs)
iterate (text s) = ok (map text (characters s))
iterate _ = err type_error

-- The same where a text stands for the list of itself.
abbrev pub iterate_texts : Value → Result PlanError (List Value)
iterate_texts (text s) = ok (text s ∷ [])
iterate_texts v = iterate v

-- The entries of a section of an accepted manifest.
unfoldable pub objects_in : List Value → List Fields
objects_in [] = []
objects_in (dict fs ∷ vs) = fs ∷ objects_in vs
objects_in (_ ∷ vs) = objects_in vs

unfoldable pub entries_of : Value → List Fields
unfolding objects_in items_of
entries_of (list vs) = objects_in (items_of vs)
entries_of _ = []
