-- ===== src/Plan/Scopes.antt =====
-- `_target_scope_candidates` and `_declared_scope_ids` of validation_planning.py, and the node ids of
-- graph_ingestion.py that the latter reads. A list stands for the set of its entries.
use workspace_governance_con.Prelude.{
  Bool, true, false, not, ◌||◌, ◌==◌, leb, Option, none, some, List, [], ◌∷◌, ◌++◌, map, String,
  str_eq, all, filter, length, if◌then◌else◌,
}
use workspace_governance_con.Prelude.Text.{strip, slashes, is_empty, text_length, first_characters}
use workspace_governance_con.Prelude.Result.{Result, ok, err, ◌>>=◌}
use workspace_governance_con.Value.{Value, Fields, text, list, dict, nil, get, or_else, items_of}
use workspace_governance_con.Platform.{Platform, str}
use workspace_governance_con.Plan.Path.{parts, posix_text}
use workspace_governance_con.Plan.Model.{ValidationTarget, PlanError, type_error}
use workspace_governance_con.Plan.Targets.{
  is_supported_scope, path_matches_source_paths, profile_scope_of, iterate, iterate_texts,
  entries_of,
}
use Prim.Native.String.{◌++◌ as ◌<>◌}

abbrev is_text : Value → Bool
is_text (text _) = true
is_text _ = false

-- `",".join(value or [])` does not raise a `TypeError`.
joins : Value → Bool
unfolding items_of
joins (list vs) = all is_text (items_of vs)
joins (dict fs) = true
joins (text s) = true
joins _ = false

abbrev pub optional_scope : Option String → List String
optional_scope none = []
optional_scope (some s) = s ∷ []

module _ (p : Platform) where
  -- `str(value).strip()`
  unfoldable pub stripped : Value → String
  unfolding str strip
  stripped v = strip (str p v)

  -- `str(fields.get(key) or "").strip()`
  unfoldable pub text_at : Fields → String → String
  unfolding stripped or_else get
  text_at fs k = stripped (or_else (get fs k) (text ""))

  -- `_source_paths`
  unfoldable pub source_paths : Fields → Result PlanError (List String)
  unfolding or_else get iterate stripped slashes posix_text
  source_paths item = do
    raw_paths ←
        iterate_texts (or_else (or_else (get item "source_paths") (get item "paths")) (list nil))
    ok (
        map (λ path. posix_text (slashes path))
          (filter (λ path. not (is_empty path)) (map stripped raw_paths)))

  -- `_impact_scopes`
  unfoldable pub impact_scopes : Fields → Result PlanError (List String)
  unfolding or_else get iterate stripped is_supported_scope
  impact_scopes item = do
    raw_scopes ←
        iterate_texts
          (or_else (or_else (get item "impact_scopes") (get item "validation_scopes")) (list nil))
    ok (filter is_supported_scope (map stripped raw_scopes))

  abbrev scopes_if : Bool → String → Fields → Result PlanError (List String)
  scopes_if true scope item = do impact ← impact_scopes item; ok (scope ∷ impact)
  scopes_if false scope item = ok []

  -- One repository of the loop; `only` says that the manifest declares no other.
  unfoldable pub repo_scopes : Bool → String → Fields → Result PlanError (List String)
  unfolding source_paths impact_scopes path_matches_source_paths text_at
  repo_scopes only changed_path repo = do
    paths ← source_paths repo
    scopes_if (only || path_matches_source_paths changed_path paths)
        ("repo:" <> text_at repo "repo_id") repo

  unfoldable pub component_scopes : String → Fields → Result PlanError (List String)
  unfolding source_paths impact_scopes path_matches_source_paths text_at
  component_scopes changed_path component = do
    paths ← source_paths component
    scopes_if (path_matches_source_paths changed_path paths)
        ("component:" <> text_at component "component_id") component

  unfoldable pub collect {ℓ} :
      {A : Type ℓ} → (A → Result PlanError (List String)) → List A → Result PlanError (List String)
  collect f [] = ok []
  collect f (x ∷ xs) = do scopes ← f x; rest ← collect f xs; ok (scopes ++ rest)

  unfoldable pub named_entries : Fields → String → String → List Fields
  unfolding entries_of get text_at
  named_entries manifest section id_field =
      filter (λ item. not (is_empty (text_at item id_field))) (entries_of (get manifest section))

  unfoldable pub changed_file_scopes : Fields → String → Result PlanError (List String)
  unfolding named_entries collect repo_scopes component_scopes profile_scope_of parts
  changed_file_scopes manifest changed_path = do
    let repos = named_entries manifest "repos" "repo_id"
    from_repos ← collect (repo_scopes (length repos == 1) changed_path) repos
    from_components ←
        collect (component_scopes changed_path) (named_entries manifest "components" "component_id")
    ok (from_repos ++ (from_components ++ optional_scope (profile_scope_of (parts changed_path))))

  -- `_target_scope_candidates`
  unfoldable pub target_scope_candidates :
      Fields → ValidationTarget → Result PlanError (List String)
  unfolding changed_file_scopes
  target_scope_candidates manifest target =
      if not (str_eq target.target_type "changed-file")
      then ok (target.scope ∷ [])
      else (do scopes ← changed_file_scopes manifest target.target_id; ok (target.scope ∷ scopes))

  -- `_node_id` of graph_ingestion.py
  unfoldable pub node_id : String → String → String
  unfolding text_length first_characters strip
  node_id prefix raw_id =
      let candidate = prefix <> (":" <> strip raw_id) in
      if leb (text_length candidate) 128
      then candidate
      else prefix <> (":" <> first_characters 24 (p.sha256_hex candidate))

  nodes_of : Fields → String → String → String → List String
  unfolding entries_of get text_at node_id
  nodes_of manifest section id_field prefix =
      map (λ item. node_id prefix (text_at item id_field)) (entries_of (get manifest section))

  -- The ids of the nodes of `build_manifest_graph`, of an accepted manifest.
  unfoldable pub graph_node_ids : Fields → Result PlanError (List String)
  unfolding joins or_else entries_of get nodes_of
  graph_node_ids manifest =
      if all (λ item. joins (or_else (get item "source_paths") (list nil)))
        (entries_of (get manifest "components"))
      then ok (
          nodes_of manifest "authority_refs" "authority_id" "authority"
          ++ (nodes_of manifest "repos" "repo_id" "repo"
              ++ (nodes_of manifest "components" "component_id" "component"
                  ++ (nodes_of manifest "validators" "validator_id" "validator"
                      ++ nodes_of manifest "projections" "projection_id" "projection"))))
      else err type_error

  -- `{str(scope).strip() for scope in validator["scopes"]}` of an accepted manifest.
  unfoldable pub validator_scopes : Fields → List String
  unfolding items_of get stripped
  validator_scopes validator = elim (get validator "scopes") [
    | list vs ↦ map stripped (items_of vs)
    | _ ↦ []
  ]

  -- `_declared_scope_ids`
  unfoldable pub declared_scope_ids : Fields → Result PlanError (List String)
  unfolding graph_node_ids collect impact_scopes validator_scopes entries_of get
  declared_scope_ids manifest = do
    nodes ← graph_node_ids manifest
    from_repos ← collect impact_scopes (entries_of (get manifest "repos"))
    from_components ← collect impact_scopes (entries_of (get manifest "components"))
    from_validators ←
        collect (λ v. ok (validator_scopes v)) (entries_of (get manifest "validators"))
    ok (nodes ++ (from_repos ++ (from_components ++ from_validators)))
