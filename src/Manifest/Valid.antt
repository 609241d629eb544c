-- ===== src/Manifest/Valid.antt =====
-- The manifests that `validate_governance_manifest` of manifests.py accepts.
use workspace_governance_con.Prelude.{
  ℕ, suc, ◌≡◌, refl, ◌↔◌, true, false, Option, none, some, List, [], ◌∷◌, ◌++◌, String, arith, All,
  IsSome, contains, Bool-cases, inl, inr,
}
use workspace_governance_con.Value.{
  Value, Fields, null, bool, int, float, text, list, dict, get, items_of,
}
use workspace_governance_con.Manifest.Sections.{
  Place, part, element, ManifestError, not_list, filled,
}
use workspace_governance_con.Manifest.Validate.{
  seen_after, duplicate_errors, text_errors, require_non_empty_string, require_list, too_short,
  value_errors, string_errors, validate_string_list, validate_output_ref, unknown_errors,
  unknown_among, validate_known_authority_ids, items_in, with_text,
}
use workspace_governance_con.Manifest.Spec.{
  texts_in, DistinctFrom, IsList, IsNonEmpty, IsFilled, IsStringList, IsKnown, IsOutput,
}

-- That a check finds no error, and what this says.
abbrev NoneWhen {ℓ} : List ManifestError → Type ℓ → Type ℓ
NoneWhen errors P = (errors ≡ []) ↔ P

pub both {ℓ κ} :
    {P : Type ℓ} {Q : Type κ} (xs ys : List ManifestError)
    → (xs ≡ []) ↔ P
    → (ys ≡ []) ↔ Q
    → (xs ++ ys ≡ []) ↔ (P × Q)
both [] ys p q = ((λ h. (p.0 refl, q.0 h)), λ h. q.1 h.1)
both (x ∷ xs) ys p q = ((λ h. cc), λ h. absurd (let e = p.1 h.0 in cc))

pub also_nothing {ℓ} : {P : Type ℓ} (xs : List ManifestError) → (xs ≡ []) ↔ P → (xs ++ [] ≡ []) ↔ P
also_nothing [] p = p
also_nothing (x ∷ xs) p = ((λ h. cc), λ h. absurd (let e = p.1 h in cc))

pub never : (e : ManifestError) → ((e ∷ []) ≡ []) ↔ ⊥
never e = ((λ h. cc), λ h. absurd h)

pub not_list_iff {ℓ} :
    {P : Type ℓ} (place : Place) (xs : List ManifestError) → (not_list place ∷ xs ≡ []) ↔ (⊥ × P)
not_list_iff place xs = ((λ h. cc), λ h. absurd h.0)

pub text_errors-nil_iff :
    (place : Place) (o : Option String) → (text_errors place o ≡ []) ↔ IsSome o
text_errors-nil_iff place none = never _
text_errors-nil_iff place (some s) = ((λ h. tt), λ h. refl)

pub require_non_empty_string-nil_iff :
    (place : Place) (fs : Fields) (k : String)
    → (require_non_empty_string place fs k ≡ []) ↔ IsFilled fs k
unfolding require_non_empty_string
require_non_empty_string-nil_iff place fs k = text_errors-nil_iff (part place k) (filled (get fs k))

-- A text that is new, where there is one.
abbrev pub IsNew : Option String → List String → Type 0
IsNew none seen = Unit
IsNew (some s) seen = contains s seen ≡ false

pub duplicate-nil_iff :
    (place : Place) (o : Option String) (seen : List String)
    → (duplicate_errors place o seen ≡ []) ↔ IsNew o seen
unfolding duplicate_errors
duplicate-nil_iff place none seen = ((λ h. tt), λ h. refl)
duplicate-nil_iff place (some s) seen = elim (Bool-cases (contains s seen)) [
  | inl e ↦ rw e ((λ h. cc), λ h. cc)
  | inr e ↦ rw e ((λ h. refl), λ h. refl)
]

value-nil_iff :
    (place : Place) (o : Option String) (seen : List String)
    → (value_errors place o seen ≡ []) ↔ (IsSome o × IsNew o seen)
unfolding value_errors
value-nil_iff place none seen = ((λ h. cc), λ h. absurd h.0)
value-nil_iff place (some s) seen =
    let (a, b) = duplicate-nil_iff place (some s) seen in ((λ h. (tt, a h)), λ h. b h.1)

-- One round of a loop that collects texts: the entry is in order and its text is new, where it has one.
pub round_iff {ℓ κ} :
    {P : Type ℓ} {A : Type κ} (errors : List ManifestError)
    (rest : List String → List ManifestError) (o : Option String) (ids seen : List String)
    → (errors ≡ []) ↔ (P × IsNew o seen)
    → ((seen' : List String) → (rest seen' ≡ []) ↔ (A × DistinctFrom seen' ids))
    → (errors ++ rest (seen_after o seen) ≡ []) ↔ ((P × A) × DistinctFrom seen (with_text o ids))
round_iff errors rest none ids seen e r =
    let (f, g) = both errors (rest seen) e (r seen) in
    ((λ h. let ((p, n), (a, d)) = f h in ((p, a), d)), λ ((p, a), d). g ((p, tt), (a, d)))
round_iff errors rest (some s) ids seen e r =
    let (f, g) = both errors (rest (s ∷ seen)) e (r (s ∷ seen)) in
    ((λ h. let ((p, n), (a, d)) = f h in ((p, a), (n, d))), λ ((p, a), (n, d)). g ((p, n), (a, d)))

-- The loop over a list of texts.
strings-nil_iff :
    (place : Place) (vs : List Value) (i : ℕ) (seen : List String)
    → (string_errors place vs i seen ≡ [])
      ↔ (All (λ w. IsSome (filled w)) vs × DistinctFrom seen (texts_in vs))
unfolding string_errors
strings-nil_iff place [] i seen = ((λ h. (tt, tt)), λ h. refl)
strings-nil_iff place (v ∷ vs) i seen =
    round_iff (value_errors (element place i) (filled v) seen) (string_errors place vs (suc i))
      (filled v) (texts_in vs) seen (value-nil_iff (element place i) (filled v) seen)
      (strings-nil_iff place vs (suc i))

too_short-nil_iff : (place : Place) (vs : List Value) → (too_short place 1 vs ≡ []) ↔ IsNonEmpty vs
too_short-nil_iff place [] = never _
too_short-nil_iff place (v ∷ vs) = ((λ h. tt), λ h. ground arith)

pub require_list-nil_iff :
    (place : Place) (v : Value)
    → ((require_list place v 1).0 ≡ []) ↔ (IsList v × IsNonEmpty (items_in v))
unfolding require_list
require_list-nil_iff place (list vs) =
    let (f, g) = too_short-nil_iff place (items_of vs) in ((λ h. (tt, f h)), λ h. g h.1)
require_list-nil_iff place null = not_list_iff place _
require_list-nil_iff place (bool _) = not_list_iff place _
require_list-nil_iff place (int _) = not_list_iff place _
require_list-nil_iff place (float _) = not_list_iff place _
require_list-nil_iff place (text _) = not_list_iff place _
require_list-nil_iff place (dict _) = not_list_iff place _

not-IsStringList :
    (place : Place) (v : Value) (xs : List ManifestError)
    → ¬ IsList v
    → (not_list place ∷ xs ≡ []) ↔ IsStringList v
not-IsStringList place v xs n = ((λ h. cc), λ h. absurd (n h.0))

pub validate_string_list-nil_iff :
    (place : Place) (v : Value) → (validate_string_list place v ≡ []) ↔ IsStringList v
unfolding validate_string_list require_list
validate_string_list-nil_iff place (list vs) =
    let (f, g) =
      both (too_short place 1 (items_of vs)) (string_errors place (items_of vs) 0 [])
        (too_short-nil_iff place (items_of vs)) (strings-nil_iff place (items_of vs) 0 []) in
    ((λ h. let (a, b) = f h in (tt, a, b.0, b.1)), λ (_, a, b, c). g (a, (b, c)))
validate_string_list-nil_iff place null = not-IsStringList place null _ (λ n. n)
validate_string_list-nil_iff place (bool b) = not-IsStringList place (bool b) _ (λ n. n)
validate_string_list-nil_iff place (int n) = not-IsStringList place (int n) _ (λ n. n)
validate_string_list-nil_iff place (float x) = not-IsStringList place (float x) _ (λ n. n)
validate_string_list-nil_iff place (text s) = not-IsStringList place (text s) _ (λ n. n)
validate_string_list-nil_iff place (dict d) = not-IsStringList place (dict d) _ (λ n. n)

pub validate_output_ref-nil_iff :
    (place : Place) (v : Value) → (validate_output_ref place v ≡ []) ↔ IsOutput v
unfolding validate_output_ref
validate_output_ref-nil_iff place (dict fs) =
    both _ _ (require_non_empty_string-nil_iff place fs "repo")
      (require_non_empty_string-nil_iff place fs "path")
validate_output_ref-nil_iff place null = never _
validate_output_ref-nil_iff place (bool _) = never _
validate_output_ref-nil_iff place (int _) = never _
validate_output_ref-nil_iff place (float _) = never _
validate_output_ref-nil_iff place (text _) = never _
validate_output_ref-nil_iff place (list _) = never _

unknown-nil_iff :
    (place : Place) (o : Option String) (ids rest : List String)
    → (unknown_errors place o ids ≡ []) × All (λ s. contains s ids ≡ true) rest
      ↔ All (λ s. contains s ids ≡ true) (with_text o rest)
unknown-nil_iff place none ids rest = ((λ h. h.1), λ h. (refl, h))
unknown-nil_iff place (some s) ids rest = elim (Bool-cases (contains s ids)) [
  | inl e ↦ rw e ((λ h. (refl, h.1)), λ h. (refl, h.1))
  | inr e ↦ rw e ((λ h. cc), λ h. absurd (let q = h.0 in cc))
]

known_among-nil_iff :
    (place : Place) (vs : List Value) (ids : List String)
    → (unknown_among place vs ids ≡ []) ↔ All (λ s. contains s ids ≡ true) (texts_in vs)
unfolding unknown_among
known_among-nil_iff place [] ids = ((λ h. tt), λ h. refl)
known_among-nil_iff place (v ∷ vs) ids =
    let (f, g) =
      both (unknown_errors place (filled v) ids) (unknown_among place vs ids) ((λ h. h), λ h. h)
        (known_among-nil_iff place vs ids) in
    let (a, b) = unknown-nil_iff place (filled v) ids (texts_in vs) in
    ((λ h. a (f h)), λ h. g (b h))

pub validate_known_authority_ids-nil_iff :
    (place : Place) (v : Value) (ids : List String)
    → (validate_known_authority_ids place v ids ≡ []) ↔ IsKnown ids v
unfolding validate_known_authority_ids
validate_known_authority_ids-nil_iff place (list vs) ids =
    known_among-nil_iff place (items_of vs) ids
validate_known_authority_ids-nil_iff place null ids = ((λ h. tt), λ h. refl)
validate_known_authority_ids-nil_iff place (bool _) ids = ((λ h. tt), λ h. refl)
validate_known_authority_ids-nil_iff place (int _) ids = ((λ h. tt), λ h. refl)
validate_known_authority_ids-nil_iff place (float _) ids = ((λ h. tt), λ h. refl)
validate_known_authority_ids-nil_iff place (text _) ids = ((λ h. tt), λ h. refl)
validate_known_authority_ids-nil_iff place (dict _) ids = ((λ h. tt), λ h. refl)
