-- ===== src/Manifest/Accepted.antt =====
-- The sections and the whole of a manifest that `validate_governance_manifest` of manifests.py accepts.
use workspace_governance_con.Prelude.{
  ℕ, suc, ◌≡◌, refl, ◌↔◌, ap, true, Option, none, some, List, [], ◌∷◌, ◌++◌, String, arith, All,
  Bool-cases, inl, inr,
}
use workspace_governance_con.Prelude.Int.{pos}
use workspace_governance_con.Value.{
  Value, Fields, null, bool, int, float, text, list, dict, get, find, items_of, or_null,
}
use workspace_governance_con.Platform.{Platform}
use workspace_governance_con.Equality.{value_eq}
use workspace_governance_con.Manifest.Sections.{
  Place, part, root, entry, ManifestError, missing, filled, id_of, Section, repos, components,
  validators, projections, manifest_sections,
}
use workspace_governance_con.Manifest.Validate.{
  require_list, too_short, authority_errors, validate_authority_refs, seen_after, with_text,
  required_errors, entry_errors, validate_section, section_errors, all_sections, require_value,
  version_errors, object_errors, validate_governance_manifest, ids_in, items_in,
}
use workspace_governance_con.Manifest.Spec.{
  DistinctFrom, IsList, IsNonEmpty, IsFilled, IsKnown, IsAuthority, IsRepo, IsComponent,
  IsValidator, IsProjection, IsObject, IsSection, IsManifest,
}
use workspace_governance_con.Manifest.Valid.{
  both, also_nothing, text_errors-nil_iff, duplicate-nil_iff, IsNew, round_iff,
  require_list-nil_iff, validate_known_authority_ids-nil_iff,
}
use workspace_governance_con.Manifest.Required.{
  each_required-nil_iff, repo-nil_iff, component-nil_iff, validator-nil_iff, projection-nil_iff,
}

none_too_few : (place : Place) (vs : List Value) → too_short place 0 vs ≡ []
none_too_few place [] = refl
none_too_few place (v ∷ vs) = ground arith

module _ (s : Section) (P : Fields → Type 0) (ids : List String)
    (required : (place : Place) (fs : Fields)
      → (required_errors place fs s.required_fields ≡ []) ↔ P fs) where
  abbrev IsEntry : Value → Type 0
  IsEntry = IsObject (λ fs. P fs × IsKnown ids (get fs s.ref_field))

  not_entry : (e : ManifestError) (Q : Type 0) → ((e ∷ []) ≡ []) ↔ (⊥ × Q)
  not_entry e Q = ((λ h. cc), λ h. absurd h.0)

  entry_errors-nil_iff :
      (i : ℕ) (seen : List String) (v : Value)
      → (entry_errors s ids i seen v ≡ []) ↔ (IsEntry v × IsNew (id_of s.id_field v) seen)
  unfolding entry_errors id_of
  entry_errors-nil_iff i seen (dict fs) =
      let (f, g) = both _ _ (required (entry s.name i) fs) (
        both _ _
          (duplicate-nil_iff (part (entry s.name i) s.id_field) (filled (get fs s.id_field)) seen)
          (validate_known_authority_ids-nil_iff (part (entry s.name i) s.ref_field)
            (get fs s.ref_field) ids)) in
      ((λ h. let (a, (b, c)) = f h in ((a, c), b)), λ ((a, c), b). g (a, (b, c)))
  entry_errors-nil_iff i seen null = not_entry _ _
  entry_errors-nil_iff i seen (bool _) = not_entry _ _
  entry_errors-nil_iff i seen (int _) = not_entry _ _
  entry_errors-nil_iff i seen (float _) = not_entry _ _
  entry_errors-nil_iff i seen (text _) = not_entry _ _
  entry_errors-nil_iff i seen (list _) = not_entry _ _

  entries-nil_iff :
      (vs : List Value) (i : ℕ) (seen : List String)
      → (validate_section s ids vs i seen ≡ [])
        ↔ (All IsEntry vs × DistinctFrom seen (ids_in s.id_field vs))
  unfolding validate_section ids_in
  entries-nil_iff [] i seen = ((λ h. (tt, tt)), λ h. refl)
  entries-nil_iff (v ∷ vs) i seen =
      round_iff (entry_errors s ids i seen v) (validate_section s ids vs (suc i))
        (id_of s.id_field v) (ids_in s.id_field vs) seen (entry_errors-nil_iff i seen v)
        (entries-nil_iff vs (suc i))

  listed-nil_iff :
      (v : Value)
      → ((require_list (root s.name) v 0).0
            ++ validate_section s ids (require_list (root s.name) v 0).1 0 []
          ≡ [])
        ↔ IsSection P s.id_field s.ref_field ids v
  unfolding require_list
  listed-nil_iff (list vs) =
      let (f, g) = entries-nil_iff (items_of vs) 0 [] in
      rw (none_too_few (root s.name) (items_of vs))
        ((λ h. let (a, b) = f h in (tt, a, b)), λ (_, a, b). g (a, b))
  listed-nil_iff null = ((λ h. cc), λ h. absurd h.0)
  listed-nil_iff (bool _) = ((λ h. cc), λ h. absurd h.0)
  listed-nil_iff (int _) = ((λ h. cc), λ h. absurd h.0)
  listed-nil_iff (float _) = ((λ h. cc), λ h. absurd h.0)
  listed-nil_iff (text _) = ((λ h. cc), λ h. absurd h.0)
  listed-nil_iff (dict _) = ((λ h. cc), λ h. absurd h.0)

  section-nil_iff :
      (manifest : Fields)
      → (section_errors manifest ids s ≡ [])
        ↔ IsSection P s.id_field s.ref_field ids (get manifest s.name)
  unfolding section_errors
  section-nil_iff manifest = listed-nil_iff (get manifest s.name)

authority_errors-nil_iff :
    (i : ℕ) (seen : List String) (v : Value)
    → (authority_errors i seen v ≡ [])
      ↔ (IsObject IsAuthority v × IsNew (id_of "authority_id" v) seen)
unfolding authority_errors id_of
authority_errors-nil_iff i seen (dict fs) =
    both _ _ (each_required-nil_iff (entry "authority_refs" i) fs) (
      duplicate-nil_iff (part (entry "authority_refs" i) "authority_id")
        (filled (get fs "authority_id")) seen)
authority_errors-nil_iff i seen null = ((λ h. cc), λ h. absurd h.0)
authority_errors-nil_iff i seen (bool _) = ((λ h. cc), λ h. absurd h.0)
authority_errors-nil_iff i seen (int _) = ((λ h. cc), λ h. absurd h.0)
authority_errors-nil_iff i seen (float _) = ((λ h. cc), λ h. absurd h.0)
authority_errors-nil_iff i seen (text _) = ((λ h. cc), λ h. absurd h.0)
authority_errors-nil_iff i seen (list _) = ((λ h. cc), λ h. absurd h.0)

authorities-nil_iff :
    (vs : List Value) (i : ℕ) (seen : List String)
    → ((validate_authority_refs vs i seen).0 ≡ [])
      ↔ (All (IsObject IsAuthority) vs × DistinctFrom seen (ids_in "authority_id" vs))
unfolding validate_authority_refs ids_in
authorities-nil_iff [] i seen = ((λ h. (tt, tt)), λ h. refl)
authorities-nil_iff (v ∷ vs) i seen =
    round_iff (authority_errors i seen v) (λ seen'. (validate_authority_refs vs (suc i) seen').0)
      (id_of "authority_id" v) (ids_in "authority_id" vs) seen (authority_errors-nil_iff i seen v)
      (authorities-nil_iff vs (suc i))

authorities-ids :
    (vs : List Value) (i : ℕ) (seen : List String)
    → (validate_authority_refs vs i seen).1 ≡ ids_in "authority_id" vs
unfolding validate_authority_refs ids_in
authorities-ids [] i seen = refl
authorities-ids (v ∷ vs) i seen =
    ap (with_text (id_of "authority_id" v))
      (authorities-ids vs (suc i) (seen_after (id_of "authority_id" v) seen))

module _ (p : Platform) where
  version_of : (o : Option Value) → List ManifestError
  version_of o =
      (elim o [ none ↦ missing "schema_version" ∷ [] | some _ ↦ [] ])
      ++ version_errors p (or_null o)

  version_of-nil_iff :
      (o : Option Value)
      → (version_of o ≡ []) ↔ (value_eq p.float_eq (or_null o) (int (pos 1)) ≡ true)
  unfolding version_of version_errors or_null value_eq
  version_of-nil_iff none = ((λ h. cc), λ h. cc)
  version_of-nil_iff (some v) = elim (Bool-cases (value_eq p.float_eq v (int (pos 1)))) [
    | inl e ↦ rw e ((λ h. refl), λ h. refl)
    | inr e ↦ rw e ((λ h. cc), λ h. cc)
  ]

  with_rest {ℓ} :
      {P : Type ℓ} (o : Option Value) (errors : List ManifestError)
      → (errors ≡ []) ↔ P
      → ((elim o [ none ↦ missing "schema_version" ∷ [] | some _ ↦ [] ])
            ++ (version_errors p (or_null o) ++ errors)
          ≡ [])
        ↔ ((value_eq p.float_eq (or_null o) (int (pos 1)) ≡ true) × P)
  unfolding or_null value_eq version_of
  with_rest none errors q = ((λ h. cc), λ h. absurd (let e = h.0 in cc))
  with_rest (some v) errors q = both _ _ (version_of-nil_iff (some v)) q

  -- The sections together.
  module _ (manifest : Fields) where
    abbrev Sections : List String → Type 0
    Sections ids =
        IsSection IsRepo "repo_id" "authority_ref_ids" ids (get manifest "repos")
        × (IsSection IsComponent "component_id" "authority_ref_ids" ids (get manifest "components")
            × (IsSection IsValidator "validator_id" "authority_ref_ids" ids
                  (get manifest "validators")
                × IsSection IsProjection "projection_id" "source_ref_ids" ids
                    (get manifest "projections")))

    all_sections-nil_iff :
        (ids : List String) → (all_sections manifest ids manifest_sections ≡ []) ↔ Sections ids
    unfolding all_sections
    all_sections-nil_iff ids = both _ _ (section-nil_iff repos IsRepo ids repo-nil_iff manifest) (
        both _ _ (section-nil_iff components IsComponent ids component-nil_iff manifest) (
          both _ _ (section-nil_iff validators IsValidator ids validator-nil_iff manifest) (
            also_nothing _
              (section-nil_iff projections IsProjection ids projection-nil_iff manifest))))

    abbrev References : Value → Type 0
    References v =
        (IsList v × IsNonEmpty (items_in v))
        × ((All (IsObject IsAuthority) (items_in v)
              × DistinctFrom [] (ids_in "authority_id" (items_in v)))
            × Sections (ids_in "authority_id" (items_in v)))

    refs_then_sections-nil_iff :
        (v : Value)
        → let refs = require_list (root "authority_refs") v 1 in
          let result = validate_authority_refs refs.1 0 [] in
          (refs.0 ++ (result.0 ++ all_sections manifest result.1 manifest_sections) ≡ [])
          ↔ References v
    unfolding require_list
    refs_then_sections-nil_iff (list vs) = rw (authorities-ids (items_of vs) 0 []) (
        both _ _ (require_list-nil_iff (root "authority_refs") (list vs)) (
          both _ _ (authorities-nil_iff (items_of vs) 0 [])
            (all_sections-nil_iff (ids_in "authority_id" (items_of vs)))))
    refs_then_sections-nil_iff null = ((λ h. cc), λ h. absurd h.0.0)
    refs_then_sections-nil_iff (bool _) = ((λ h. cc), λ h. absurd h.0.0)
    refs_then_sections-nil_iff (int _) = ((λ h. cc), λ h. absurd h.0.0)
    refs_then_sections-nil_iff (float _) = ((λ h. cc), λ h. absurd h.0.0)
    refs_then_sections-nil_iff (text _) = ((λ h. cc), λ h. absurd h.0.0)
    refs_then_sections-nil_iff (dict _) = ((λ h. cc), λ h. absurd h.0.0)

    checks-nil_iff : (object_errors p manifest ≡ []) ↔ (
        (value_eq p.float_eq (get manifest "schema_version") (int (pos 1)) ≡ true)
        × (IsFilled manifest "manifest_id"
            × (IsFilled manifest "owner_repo" × References (get manifest "authority_refs"))))
    unfolding object_errors get require_value
    checks-nil_iff = with_rest (find manifest "schema_version") _ (
        both _ _ (text_errors-nil_iff (root "manifest_id") (filled (get manifest "manifest_id"))) (
          both _ _ (text_errors-nil_iff (root "owner_repo") (filled (get manifest "owner_repo")))
            (refs_then_sections-nil_iff (get manifest "authority_refs"))))

  -- The validator accepts exactly the manifests: version 1, an id and an owner, at least one authority
  -- reference, every entry with its fields, references to declared authorities only, and no id twice.
  pub validate_governance_manifest-IsManifest_iff :
      (manifest : Fields)
      → (validate_governance_manifest p (dict manifest) ≡ []) ↔ IsManifest p manifest
  unfolding validate_governance_manifest
  validate_governance_manifest-IsManifest_iff manifest =
      let (f, g) = checks-nil_iff manifest in
      (
        (λ h.
            let (version, (id, (owner, (listed, ((each, new), (rs, (cs, (vs, ps)))))))) = f h in
            record {
              version = version;
              id = id;
              owner = owner;
              authorities_list = listed;
              authorities = each;
              authorities_distinct = new;
              repos = rs;
              components = cs;
              validators = vs;
              projections = ps;
            }),
        λ m. g (
          m.version,
          (
            m.id,
            (
              m.owner,
              ((
                m.authorities_list,
                (
                  (m.authorities, m.authorities_distinct),
                  (m.repos, (m.components, (m.validators, m.projections))),
                ),
              )),
            ),
          ),
        ),
      )
