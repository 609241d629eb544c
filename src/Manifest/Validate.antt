-- ===== src/Manifest/Validate.antt =====
-- `validate_governance_manifest` of manifests.py: each check yields the errors that it appends.
use workspace_governance_con.Prelude.{
  ℕ, suc, Option, none, some, List, [], ◌∷◌, ◌++◌, map, String, str_eq, ltb, length, contains,
  if◌then◌else◌,
}
use workspace_governance_con.Prelude.Int.{pos}
use workspace_governance_con.Value.{Value, Fields, int, list, dict, find, get, items_of}
use workspace_governance_con.Platform.{Platform}
use workspace_governance_con.Equality.{value_eq}
use workspace_governance_con.Manifest.Sections.{
  Place, root, entry, part, element, ManifestError, not_object, not_list, not_text, missing,
  wrong_version, too_few, duplicate, unknown_authority, authority_ref_required_fields, Section,
  manifest_sections, filled, id_of,
}

-- `seen.add(id)` where there is an id.
abbrev pub seen_after : Option String → List String → List String
seen_after none seen = seen
seen_after (some s) seen = s ∷ seen

-- A list with the text that is there in front.
abbrev pub with_text : Option String → List String → List String
with_text none rest = rest
with_text (some s) rest = s ∷ rest

-- The error of an id that was seen already.
unfoldable pub duplicate_errors : Place → Option String → List String → List ManifestError
unfolding contains
duplicate_errors place none seen = []
duplicate_errors place (some s) seen = if contains s seen then duplicate place s ∷ [] else []

abbrev pub text_errors : Place → Option String → List ManifestError
text_errors place none = not_text place ∷ []
text_errors place (some _) = []

-- `_require_non_empty_string`
unfoldable pub require_non_empty_string : Place → Fields → String → List ManifestError
unfolding filled get
require_non_empty_string place item name = text_errors (part place name) (filled (get item name))

abbrev pub too_short : Place → ℕ → List Value → List ManifestError
too_short place min_items values = if ltb (length values) min_items then too_few place ∷ [] else []

-- `_require_list`: its errors, and the items that it returns.
unfoldable pub require_list : Place → Value → ℕ → List ManifestError × List Value
unfolding items_of
require_list place (list vs) min_items = (too_short place min_items (items_of vs), items_of vs)
require_list place _ min_items = (not_list place ∷ [], [])

-- `_validate_authority_refs`: the fields of one reference, by their names.
unfoldable pub each_required : Place → Fields → List String → List ManifestError
unfolding require_non_empty_string
each_required place item [] = []
each_required place item (name ∷ names) =
    require_non_empty_string place item name ++ each_required place item names

unfoldable pub authority_errors : ℕ → List String → Value → List ManifestError
unfolding each_required duplicate_errors filled get
authority_errors i seen (dict fs) =
    each_required (entry "authority_refs" i) fs authority_ref_required_fields
    ++ duplicate_errors (part (entry "authority_refs" i) "authority_id")
        (filled (get fs "authority_id")) seen
authority_errors i seen _ = not_object (entry "authority_refs" i) ∷ []

-- The loop over the references: its errors, and the set of the ids.
unfoldable pub validate_authority_refs :
    List Value → ℕ → List String → List ManifestError × List String
unfolding authority_errors id_of
validate_authority_refs [] i seen = ([], [])
validate_authority_refs (v ∷ vs) i seen =
    let (errors, ids) =
      validate_authority_refs vs (suc i) (seen_after (id_of "authority_id" v) seen) in
    (authority_errors i seen v ++ errors, with_text (id_of "authority_id" v) ids)

-- `_validate_string_list`, its loop over the values.
unfoldable pub value_errors : Place → Option String → List String → List ManifestError
unfolding duplicate_errors
value_errors place none seen = not_text place ∷ []
value_errors place (some s) seen = duplicate_errors place (some s) seen

unfoldable pub string_errors : Place → List Value → ℕ → List String → List ManifestError
unfolding value_errors filled
string_errors place [] i seen = []
string_errors place (v ∷ vs) i seen =
    value_errors (element place i) (filled v) seen
    ++ string_errors place vs (suc i) (seen_after (filled v) seen)

unfoldable pub validate_string_list : Place → Value → List ManifestError
unfolding require_list string_errors
validate_string_list place value =
    let (errors, values) = require_list place value 1 in errors ++ string_errors place values 0 []

unfoldable pub validate_output_ref : Place → Value → List ManifestError
unfolding require_non_empty_string
validate_output_ref place (dict fs) =
    require_non_empty_string place fs "repo" ++ require_non_empty_string place fs "path"
validate_output_ref place _ = not_object place ∷ []

abbrev pub unknown_errors : Place → Option String → List String → List ManifestError
unknown_errors place none ids = []
unknown_errors place (some s) ids = if contains s ids then [] else unknown_authority place s ∷ []

-- `_validate_known_authority_ids`, over the values of a list.
unfoldable pub unknown_among : Place → List Value → List String → List ManifestError
unfolding unknown_errors filled
unknown_among place [] ids = []
unknown_among place (v ∷ vs) ids = unknown_errors place (filled v) ids ++ unknown_among place vs ids

unfoldable pub validate_known_authority_ids : Place → Value → List String → List ManifestError
unfolding unknown_among items_of
validate_known_authority_ids place (list vs) ids = unknown_among place (items_of vs) ids
validate_known_authority_ids place _ ids = []

abbrev pub list_fields : List String
list_fields = "authority_ref_ids" ∷ "source_ref_ids" ∷ "scopes" ∷ []

-- The check of one required field of an entry.
unfoldable pub field_errors : Place → Fields → String → List ManifestError
unfolding contains validate_string_list validate_output_ref require_non_empty_string get
field_errors place item name =
    if contains name list_fields
    then validate_string_list (part place name) (get item name)
    else if str_eq name "output_ref"
    then validate_output_ref (part place name) (get item name)
    else require_non_empty_string place item name

unfoldable pub required_errors : Place → Fields → List String → List ManifestError
unfolding field_errors
required_errors place item [] = []
required_errors place item (name ∷ names) =
    field_errors place item name ++ required_errors place item names

-- One entry of a section.
unfoldable pub entry_errors : Section → List String → ℕ → List String → Value → List ManifestError
unfolding required_errors duplicate_errors validate_known_authority_ids filled get
entry_errors s authority_ids i seen (dict fs) =
    required_errors (entry s.name i) fs s.required_fields
    ++ (duplicate_errors (part (entry s.name i) s.id_field) (filled (get fs s.id_field)) seen
        ++ validate_known_authority_ids (part (entry s.name i) s.ref_field) (get fs s.ref_field)
            authority_ids)
entry_errors s authority_ids i seen _ = not_object (entry s.name i) ∷ []

unfoldable pub validate_section :
    Section → List String → List Value → ℕ → List String → List ManifestError
unfolding entry_errors id_of
validate_section s authority_ids [] i seen = []
validate_section s authority_ids (v ∷ vs) i seen =
    entry_errors s authority_ids i seen v
    ++ validate_section s authority_ids vs (suc i) (seen_after (id_of s.id_field v) seen)

unfoldable pub section_errors : Fields → List String → Section → List ManifestError
unfolding require_list validate_section get
section_errors manifest authority_ids s =
    let (errors, items) = require_list (root s.name) (get manifest s.name) 0 in
    errors ++ validate_section s authority_ids items 0 []

unfoldable pub all_sections : Fields → List String → List Section → List ManifestError
unfolding section_errors
all_sections manifest authority_ids [] = []
all_sections manifest authority_ids (s ∷ ss) =
    section_errors manifest authority_ids s ++ all_sections manifest authority_ids ss

unfoldable pub require_value : Fields → String → List ManifestError
unfolding find
require_value manifest name = elim (find manifest name) [ none ↦ missing name ∷ [] | some _ ↦ [] ]

module _ (p : Platform) where
  unfoldable pub version_errors : Value → List ManifestError
  unfolding value_eq
  version_errors v = if value_eq p.float_eq v (int (pos 1)) then [] else wrong_version ∷ []

  unfoldable pub object_errors : Fields → List ManifestError
  unfolding require_value version_errors require_non_empty_string require_list
      validate_authority_refs all_sections get
  object_errors manifest =
      let (list_errors, refs) =
        require_list (root "authority_refs") (get manifest "authority_refs") 1 in
      let (ref_errors, authority_ids) = validate_authority_refs refs 0 [] in
      require_value manifest "schema_version"
      ++ (version_errors (get manifest "schema_version")
          ++ (text_errors (root "manifest_id") (filled (get manifest "manifest_id"))
              ++ (text_errors (root "owner_repo") (filled (get manifest "owner_repo"))
                  ++ (list_errors
                      ++ (ref_errors ++ all_sections manifest authority_ids manifest_sections)))))

  unfoldable pub validate_governance_manifest : Value → List ManifestError
  unfolding object_errors
  validate_governance_manifest (dict manifest) = object_errors manifest
  validate_governance_manifest _ = not_object (root "manifest") ∷ []

-- `manifest_entity_ids`, of one section.
unfoldable pub ids_in : String → List Value → List String
unfolding id_of
ids_in k [] = []
ids_in k (v ∷ vs) = with_text (id_of k v) (ids_in k vs)

abbrev pub items_in : Value → List Value
items_in (list vs) = items_of vs
items_in _ = []

unfoldable pub manifest_entity_ids : Fields → List (String × List String)
unfolding ids_in items_in get
manifest_entity_ids manifest =
    map (λ s. (s.name, ids_in s.id_field (items_in (get manifest s.name)))) manifest_sections
