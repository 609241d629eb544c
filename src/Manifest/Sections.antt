-- ===== src/Manifest/Sections.antt =====
-- The constants of manifests.py, its errors, and the readers of its entries.
use workspace_governance_con.Prelude.{ℕ, Option, none, some, List, [], ◌∷◌, String, if◌then◌else◌}
use workspace_governance_con.Prelude.Text.{strip, is_empty}
use workspace_governance_con.Value.{Value, text, dict, get}

-- The place that a message names: a field of the manifest, `section[index]`, a field of an entry, or
-- an element of a field.
pub data Place : Type 0 where
  root : String → Place
  entry : String → ℕ → Place
  part : Place → String → Place
  element : Place → ℕ → Place

pub data ManifestError : Type 0 where
  not_object not_list not_text : Place → ManifestError
  missing : String → ManifestError
  wrong_version : ManifestError
  too_few : Place → ManifestError
  duplicate unknown_authority : Place → String → ManifestError

abbrev pub authority_ref_required_fields : List String
authority_ref_required_fields = "authority_id" ∷ "repo" ∷ "path" ∷ "ref" ∷ []

-- `SECTION_ID_FIELDS` and `SECTION_REQUIRED_FIELDS`, and the field that holds references.
pub record Section : Type 0 where
  pub name : String
  pub id_field : String
  pub required_fields : List String
  pub ref_field : String

abbrev pub repos : Section
repos = record {
  name = "repos";
  id_field = "repo_id";
  required_fields = "repo_id" ∷ "owner_repo" ∷ "authority_ref_ids" ∷ [];
  ref_field = "authority_ref_ids";
}

abbrev pub components : Section
components = record {
  name = "components";
  id_field = "component_id";
  required_fields = "component_id" ∷ "owner_repo" ∷ "component_type" ∷ "authority_ref_ids" ∷ [];
  ref_field = "authority_ref_ids";
}

abbrev pub validators : Section
validators = record {
  name = "validators";
  id_field = "validator_id";
  required_fields = "validator_id" ∷ "owner_repo" ∷ "command" ∷ "scopes" ∷ "authority_ref_ids" ∷ [];
  ref_field = "authority_ref_ids";
}

abbrev pub projections : Section
projections = record {
  name = "projections";
  id_field = "projection_id";
  required_fields = "projection_id" ∷ "owner_repo" ∷ "source_ref_ids" ∷ "output_ref" ∷ [];
  ref_field = "source_ref_ids";
}

abbrev pub manifest_sections : List Section
manifest_sections = repos ∷ components ∷ validators ∷ projections ∷ []

abbrev pub if_filled : String → Option String
if_filled s = if is_empty s then none else some s

-- The stripped text of a value of which `_is_non_empty_string` holds, and `none` of another.
unfoldable pub filled : Value → Option String
unfolding strip
filled (text s) = if_filled (strip s)
filled _ = none

-- The id of an entry, where it has one.
unfoldable pub id_of : String → Value → Option String
unfolding filled get
id_of k (dict fs) = filled (get fs k)
id_of k _ = none
