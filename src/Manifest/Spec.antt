-- ===== src/Manifest/Spec.antt =====
-- What a governance manifest is, said without the validator of manifests.py.
use workspace_governance_con.Prelude.{
  ◌≡◌, true, false, List, [], ◌∷◌, String, All, IsSome, contains,
}
use workspace_governance_con.Prelude.Int.{pos}
use workspace_governance_con.Value.{Value, Fields, int, list, dict, get}
use workspace_governance_con.Platform.{Platform}
use workspace_governance_con.Equality.{value_eq}
use workspace_governance_con.Manifest.Sections.{filled}
use workspace_governance_con.Manifest.Validate.{items_in, ids_in, with_text}

-- The texts of a list, stripped.
abbrev pub texts_in : List Value → List String
texts_in [] = []
texts_in (v ∷ vs) = with_text (filled v) (texts_in vs)

-- No text is among the ones before it.
abbrev pub DistinctFrom : List String → List String → Type 0
DistinctFrom seen [] = Unit
DistinctFrom seen (x ∷ xs) = (contains x seen ≡ false) × DistinctFrom (x ∷ seen) xs

abbrev pub IsList : Value → Type 0
IsList (list vs) = Unit
IsList _ = ⊥

abbrev pub IsNonEmpty {ℓ} : {A : Type ℓ} → List A → Type 0
IsNonEmpty [] = ⊥
IsNonEmpty (_ ∷ _) = Unit

abbrev pub IsFilled : Fields → String → Type 0
IsFilled fs k = IsSome (filled (get fs k))

-- A list of one or more texts that are not blank, each one once.
abbrev pub IsStringList : Value → Type 0
IsStringList v =
    IsList v
    × IsNonEmpty (items_in v)
    × All (λ w. IsSome (filled w)) (items_in v)
    × DistinctFrom [] (texts_in (items_in v))

abbrev pub IsKnown : List String → Value → Type 0
IsKnown ids v = All (λ s. contains s ids ≡ true) (texts_in (items_in v))

abbrev pub IsOutput : Value → Type 0
IsOutput (dict fs) = IsFilled fs "repo" × IsFilled fs "path"
IsOutput _ = ⊥

abbrev pub IsAuthority : Fields → Type 0
IsAuthority fs =
    IsFilled fs "authority_id" × (IsFilled fs "repo" × (IsFilled fs "path" × IsFilled fs "ref"))

abbrev pub IsRepo : Fields → Type 0
IsRepo fs =
    IsFilled fs "repo_id" × (IsFilled fs "owner_repo" × IsStringList (get fs "authority_ref_ids"))

abbrev pub IsComponent : Fields → Type 0
IsComponent fs =
    IsFilled fs "component_id"
    × (IsFilled fs "owner_repo"
        × (IsFilled fs "component_type" × IsStringList (get fs "authority_ref_ids")))

abbrev pub IsValidator : Fields → Type 0
IsValidator fs =
    IsFilled fs "validator_id"
    × (IsFilled fs "owner_repo"
        × (IsFilled fs "command"
            × (IsStringList (get fs "scopes") × IsStringList (get fs "authority_ref_ids"))))

abbrev pub IsProjection : Fields → Type 0
IsProjection fs =
    IsFilled fs "projection_id"
    × (IsFilled fs "owner_repo"
        × (IsStringList (get fs "source_ref_ids") × IsOutput (get fs "output_ref")))

-- An object that satisfies a predicate.
abbrev pub IsObject : (Fields → Type 0) → Value → Type 0
IsObject P (dict fs) = P fs
IsObject P _ = ⊥

-- The entries of a section: each has its fields and known references, and no id occurs twice.
abbrev pub IsSection : (Fields → Type 0) → String → String → List String → Value → Type 0
IsSection P id_field ref_field ids v =
    IsList v
    × All (IsObject (λ fs. P fs × IsKnown ids (get fs ref_field))) (items_in v)
    × DistinctFrom [] (ids_in id_field (items_in v))

abbrev pub authority_ids : Fields → List String
authority_ids manifest = ids_in "authority_id" (items_in (get manifest "authority_refs"))

pub record IsManifest (p : Platform) (manifest : Fields) : Type 0 where
  pub version : value_eq p.float_eq (get manifest "schema_version") (int (pos 1)) ≡ true
  pub id : IsFilled manifest "manifest_id"
  pub owner : IsFilled manifest "owner_repo"
  pub authorities_list :
      IsList (get manifest "authority_refs") × IsNonEmpty (items_in (get manifest "authority_refs"))
  pub authorities : All (IsObject IsAuthority) (items_in (get manifest "authority_refs"))
  pub authorities_distinct : DistinctFrom [] (authority_ids manifest)
  pub repos :
      IsSection IsRepo "repo_id" "authority_ref_ids" (authority_ids manifest) (get manifest "repos")
  pub components :
      IsSection IsComponent "component_id" "authority_ref_ids"
        (authority_ids manifest)
        (get manifest "components")
  pub validators :
      IsSection IsValidator "validator_id" "authority_ref_ids"
        (authority_ids manifest)
        (get manifest "validators")
  pub projections :
      IsSection IsProjection "projection_id" "source_ref_ids"
        (authority_ids manifest)
        (get manifest "projections")
