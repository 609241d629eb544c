-- ===== src/Canonical/Total.antt =====
-- Which values `canonical_json_bytes` of canonical_json.py prints.
use workspace_governance_con.Prelude.{
  IsSome, ℕ, suc, ◌≡◌, refl, ◌↔◌, true, false, Option, none, some, List, [], ◌∷◌, ◌++◌, String,
}
use workspace_governance_con.Value.{
  Value, Items, Fields, null, bool, int, float, text, list, dict, nil, cons, end, field,
}
use workspace_governance_con.Platform.{Platform}
use workspace_governance_con.Canonical.Domain.{
  Step, Violation, canonicalization_errors, items_errors, fields_errors,
}
use workspace_governance_con.Canonical.Print.{
  json_text, json_items, json_fields, canonical_json, after_check, both, wrapped, joined_items,
  joined_fields,
}

append-nil_parts {ℓ} : {A : Type ℓ} (xs ys : List A) → xs ++ ys ≡ [] → (xs ≡ []) × (ys ≡ [])
append-nil_parts [] ys h = (refl, h)
append-nil_parts (x ∷ xs) ys h = cc

both-IsSome {ℓ κ μ} :
    {A : Type ℓ} {B : Type κ} {C : Type μ} (f : A → B → C) (a : Option A) (b : Option B)
    → IsSome a
    → IsSome b
    → IsSome (both f a b)
both-IsSome f none b h k = elim h [ ]
both-IsSome f (some a) none h k = elim k [ ]
both-IsSome f (some a) (some b) h k = tt

wrapped-IsSome : (l r : String) (o : Option String) → IsSome o → IsSome (wrapped l r o)
wrapped-IsSome l r none h = elim h [ ]
wrapped-IsSome l r (some s) h = tt

items-IsSome : (o : Option (List String)) → IsSome o → IsSome (joined_items o)
items-IsSome none h = elim h [ ]
items-IsSome (some s) h = tt

fields-IsSome : (o : Option (List (String × String))) → IsSome o → IsSome (joined_fields o)
unfolding joined_fields
fields-IsSome none h = elim h [ ]
fields-IsSome (some s) h = tt

module _ (p : Platform) where
  mutual
    unfolding json_text canonicalization_errors

    json_text-IsSome :
        (v : Value) (path : List Step)
        → canonicalization_errors v path ≡ []
        → IsSome (json_text p v)
    json_text-IsSome null path h = tt
    json_text-IsSome (bool true) path h = tt
    json_text-IsSome (bool false) path h = tt
    json_text-IsSome (int n) path h = tt
    json_text-IsSome (float x) path h = cc
    json_text-IsSome (text s) path h = tt
    json_text-IsSome (list vs) path h =
        wrapped-IsSome "[" "]" (joined_items (json_items p vs))
          (items-IsSome (json_items p vs) (json_items-IsSome vs 0 path h))
    json_text-IsSome (dict fs) path h =
        wrapped-IsSome "{" "}" (joined_fields (json_fields p fs))
          (fields-IsSome (json_fields p fs) (json_fields-IsSome fs path h))

    json_items-IsSome :
        (vs : Items) (index : ℕ) (path : List Step)
        → items_errors vs index path ≡ []
        → IsSome (json_items p vs)
    json_items-IsSome nil index path h = tt
    json_items-IsSome (cons v vs) index path h =
        let (a, b) = append-nil_parts _ _ h in
        both-IsSome _ (json_text p v) (json_items p vs) (json_text-IsSome v _ a)
          (json_items-IsSome vs (suc index) path b)

    json_fields-IsSome :
        (fs : Fields) (path : List Step) → fields_errors fs path ≡ [] → IsSome (json_fields p fs)
    json_fields-IsSome end path h = tt
    json_fields-IsSome (field k v fs) path h =
        let (_, rest) = append-nil_parts _ _ h in
        let (a, b) = append-nil_parts _ _ rest in
        both-IsSome _ (json_text p v) (json_fields p fs) (json_text-IsSome v _ a)
          (json_fields-IsSome fs path b)

  checked :
      (es : List Violation) (v : Value)
      → (es ≡ [] → IsSome (json_text p v))
      → IsSome (after_check p es v) ↔ (es ≡ [])
  unfolding after_check
  checked [] v h = ((λ _. refl), λ _. h refl)
  checked (e ∷ es) v h = ((λ s. absurd s), λ q. cc)

  -- A value is printed exactly when the check of the domain finds no error in it: no branch after the
  -- check fails.
  pub canonical_json-total_iff :
      (v : Value) → IsSome (canonical_json p v) ↔ (canonicalization_errors v [] ≡ [])
  unfolding canonical_json
  canonical_json-total_iff v = checked (canonicalization_errors v []) v (json_text-IsSome v [])
