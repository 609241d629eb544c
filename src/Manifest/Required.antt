-- ===== src/Manifest/Required.antt =====
-- The required fields of the entries that `validate_governance_manifest` of manifests.py accepts.
use workspace_governance_con.Prelude.{◌≡◌, ◌↔◌, [], ◌∷◌, contains}
use workspace_governance_con.Value.{Fields, get}
use workspace_governance_con.Manifest.Sections.{
  Place, part, repos, components, validators, projections,
}
use workspace_governance_con.Manifest.Validate.{each_required, field_errors, required_errors}
use workspace_governance_con.Manifest.Spec.{
  IsAuthority, IsRepo, IsComponent, IsValidator, IsProjection,
}
use workspace_governance_con.Manifest.Valid.{
  both, also_nothing, require_non_empty_string-nil_iff, validate_string_list-nil_iff,
  validate_output_ref-nil_iff,
}

-- The required fields of each section.
module _ (place : Place) (fs : Fields) where
  pub each_required-nil_iff :
      (each_required place fs ("authority_id" ∷ "repo" ∷ "path" ∷ "ref" ∷ []) ≡ []) ↔ IsAuthority fs
  unfolding each_required
  each_required-nil_iff = both _ _ (require_non_empty_string-nil_iff place fs "authority_id") (
      both _ _ (require_non_empty_string-nil_iff place fs "repo") (
        both _ _ (require_non_empty_string-nil_iff place fs "path")
          (also_nothing _ (require_non_empty_string-nil_iff place fs "ref"))))

  pub repo-nil_iff : (required_errors place fs repos.required_fields ≡ []) ↔ IsRepo fs
  unfolding required_errors field_errors contains
  repo-nil_iff = both _ _ (require_non_empty_string-nil_iff place fs "repo_id") (
      both _ _ (require_non_empty_string-nil_iff place fs "owner_repo") (
        also_nothing _ (
          validate_string_list-nil_iff (part place "authority_ref_ids")
            (get fs "authority_ref_ids"))))

  pub component-nil_iff :
      (required_errors place fs components.required_fields ≡ []) ↔ IsComponent fs
  unfolding required_errors field_errors contains
  component-nil_iff = both _ _ (require_non_empty_string-nil_iff place fs "component_id") (
      both _ _ (require_non_empty_string-nil_iff place fs "owner_repo") (
        both _ _ (require_non_empty_string-nil_iff place fs "component_type") (
          also_nothing _ (
            validate_string_list-nil_iff (part place "authority_ref_ids")
              (get fs "authority_ref_ids")))))

  pub validator-nil_iff :
      (required_errors place fs validators.required_fields ≡ []) ↔ IsValidator fs
  unfolding required_errors field_errors contains
  validator-nil_iff = both _ _ (require_non_empty_string-nil_iff place fs "validator_id") (
      both _ _ (require_non_empty_string-nil_iff place fs "owner_repo") (
        both _ _ (require_non_empty_string-nil_iff place fs "command") (
          both _ _ (validate_string_list-nil_iff (part place "scopes") (get fs "scopes")) (
            also_nothing _ (
              validate_string_list-nil_iff (part place "authority_ref_ids")
                (get fs "authority_ref_ids"))))))

  pub projection-nil_iff :
      (required_errors place fs projections.required_fields ≡ []) ↔ IsProjection fs
  unfolding required_errors field_errors contains
  projection-nil_iff = both _ _ (require_non_empty_string-nil_iff place fs "projection_id") (
      both _ _ (require_non_empty_string-nil_iff place fs "owner_repo") (
        both _ _
          (validate_string_list-nil_iff (part place "source_ref_ids") (get fs "source_ref_ids"))
          (also_nothing _
            (validate_output_ref-nil_iff (part place "output_ref") (get fs "output_ref")))))
