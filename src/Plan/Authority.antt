-- ===== src/Plan/Authority.antt =====
-- Which receipts name the authority that a validator refers to, said without
-- `_receipt_authority_refs_current` of validation_planning.py.
use workspace_governance_con.Prelude.{
  ◌≡◌, ◌↔◌, refl, ap, sym, eq_iff, ◌⊎◌, inl, inr, Bool, true, false, not, ◌||◌, Option, none, some,
  List, [], ◌∷◌, ◌++◌, String, str_eq, contains, arith, All, all,
}
use mathlib.Core.Path.{subst}
use mathlib.Core.Option.{some-injective}
use workspace_governance_con.Value.{Value, Fields, null, bool, int, float, text, list, dict, get}
use workspace_governance_con.Platform.{Platform, optional_str}
use workspace_governance_con.Plan.Scopes.{text_at}
use workspace_governance_con.Plan.Targets.{entries_of}
use workspace_governance_con.Plan.Receipts.{
  invalidate_on_authority_change, authority_ids, expected_if, digests_among, digests_match,
  validator_authority_digests, receipt_authority_refs_current,
}

module _ (p : Platform) where
  -- The digest that an authority of a manifest has, if it is one of those that are referred to.
  abbrev pub Has : List String → Fields → String → Type 0
  Has ids authority_ref digest =
      (contains (text_at p authority_ref "authority_id") ids ≡ true)
      × (optional_str p (get authority_ref "digest") ≡ some digest)

  -- The authorities that a validator refers to, and those of a manifest.
  abbrev pub referred : Fields → List String
  referred validator = authority_ids p (get validator "authority_ref_ids")

  abbrev pub declared : Fields → List Fields
  declared manifest = entries_of (get manifest "authority_refs")

  -- No receipt is bound to its authority, no authority that the validator refers to has a digest, or the
  -- receipt names under its id the digest of each that has one.
  abbrev pub IsCurrent : Fields → Fields → Fields → Type 0
  IsCurrent receipt validator manifest =
      (invalidate_on_authority_change validator ≡ false)
      ⊎ (All (λ a. (digest : String) → Has (referred validator) a digest → ⊥) (declared manifest)
          ⊎ ((supplied : Fields) × (get receipt "authority_ref_digests" ≡ dict supplied)
              × All
                  (λ a.
                    (digest : String)
                    → Has (referred validator) a digest
                    → text_at p supplied (text_at p a "authority_id") ≡ digest)
                  (declared manifest)))

  named_entry :
      (P : String × String → Type 0) (b : Bool) (id : String) (o : Option String)
      (rest : List (String × String))
      → All P (expected_if p b id o ++ rest)
        ↔ (((digest : String) → (b ≡ true) × (o ≡ some digest) → P (id, digest)) × All P rest)
  named_entry P true id (some d) rest = (
    (λ h. ((λ e q. subst (λ v. P (id, v)) (some-injective d e q.1) h.0), h.1)),
    λ h. (h.0 d (refl, refl), h.1),
  )
  named_entry P true id none rest = ((λ h. ((λ e q. let n = q.1 in cc), h)), λ h. h.1)
  named_entry P false id o rest = ((λ h. ((λ e q. let n = q.0 in cc), h)), λ h. h.1)

  -- What holds of all digests that are expected holds of those of the authorities.
  named_iff :
      (P : String × String → Type 0) (ids : List String) (refs : List Fields)
      → All P (digests_among p ids refs)
        ↔ All
            (λ a. (digest : String) → Has ids a digest → P (text_at p a "authority_id", digest))
            refs
  unfolding digests_among
  named_iff P ids [] = ((λ h. h), λ h. h)
  named_iff P ids (a ∷ refs) =
      let (f, g) =
        named_entry P (contains (text_at p a "authority_id") ids) (text_at p a "authority_id")
          (optional_str p (get a "digest")) (digests_among p ids refs) in
      let (f', g') = named_iff P ids refs in
      ((λ h. let (x, y) = f h in (x, f' y)), λ h. g (h.0, g' h.1))

  nothing_iff : (es : List (String × String)) → (es ≡ []) ↔ All (λ e. ⊥) es
  nothing_iff [] = ((λ h. tt), λ h. refl)
  nothing_iff (e ∷ es) = ((λ h. cc), λ h. absurd h.0)

  all_iff :
      (supplied : Fields) (es : List (String × String))
      → (all (λ e. str_eq (text_at p supplied e.0) e.1) es ≡ true)
        ↔ All (λ e. text_at p supplied e.0 ≡ e.1) es
  all_iff supplied [] = ((λ h. tt), λ h. refl)
  all_iff supplied (e ∷ es) =
      let (f, g) = eq_iff (text_at p supplied e.0) e.1 in
      let (f', g') = all_iff supplied es in
      (
        (λ h. (f (ground arith), f' (ground arith))),
        λ h. let here = g h.0 in let later = g' h.1 in ground arith,
      )

  -- The digests that are expected are those that a receipt supplies.
  Supplies : List (String × String) → Value → Type 0
  Supplies es v =
      All (λ e. ⊥) es
      ⊎ ((supplied : Fields) × (v ≡ dict supplied) × All (λ e. text_at p supplied e.0 ≡ e.1) es)

  dict_of : Value → Fields → Fields
  dict_of (dict fs) other = fs
  dict_of _ other = other

  match_iff :
      (es : List (String × String)) (v : Value) → (digests_match p es v ≡ true) ↔ Supplies es v
  unfolding digests_match Supplies dict_of
  match_iff [] v = ((λ h. inl tt), λ h. refl)
  match_iff (e ∷ es) (dict fs) =
      let (f, g) = all_iff fs (e ∷ es) in
      (
        (λ h. inr (fs, refl, f h)),
        λ h. elim h [
          | inl n ↦ absurd n.0
          | inr (supplied, same, each) ↦ g (
              subst (λ s. All (λ e. text_at p s e.0 ≡ e.1) (e ∷ es))
                (sym (ap (λ v. dict_of v supplied) same)) each)
        ],
      )
  match_iff (e ∷ es) null =
      ((λ h. cc), λ h. elim h [ inl n ↦ absurd n.0 | inr s ↦ let q = s.1 in cc ])
  match_iff (e ∷ es) (bool b) =
      ((λ h. cc), λ h. elim h [ inl n ↦ absurd n.0 | inr s ↦ let q = s.1 in cc ])
  match_iff (e ∷ es) (int i) =
      ((λ h. cc), λ h. elim h [ inl n ↦ absurd n.0 | inr s ↦ let q = s.1 in cc ])
  match_iff (e ∷ es) (float x) =
      ((λ h. cc), λ h. elim h [ inl n ↦ absurd n.0 | inr s ↦ let q = s.1 in cc ])
  match_iff (e ∷ es) (text s) =
      ((λ h. cc), λ h. elim h [ inl n ↦ absurd n.0 | inr s ↦ let q = s.1 in cc ])
  match_iff (e ∷ es) (list vs) =
      ((λ h. cc), λ h. elim h [ inl n ↦ absurd n.0 | inr s ↦ let q = s.1 in cc ])

  unless_iff : (b c : Bool) → ((not b || c) ≡ true) ↔ ((b ≡ false) ⊎ (c ≡ true))
  unless_iff true c = ((λ h. inr h), λ h. elim h [ inl e ↦ cc | inr e ↦ e ])
  unless_iff false c = ((λ h. inl refl), λ h. refl)

  -- The test of the code says that.
  pub receipt_authority_refs_current_iff :
      (receipt validator manifest : Fields)
      → (receipt_authority_refs_current p receipt validator manifest ≡ true)
        ↔ IsCurrent receipt validator manifest
  unfolding receipt_authority_refs_current validator_authority_digests Supplies
  receipt_authority_refs_current_iff receipt validator manifest =
      let es = validator_authority_digests p validator manifest in
      let ids = referred validator in
      let refs = declared manifest in
      let (f, g) =
        unless_iff (invalidate_on_authority_change validator)
          (digests_match p es (get receipt "authority_ref_digests")) in
      let (f', g') = match_iff es (get receipt "authority_ref_digests") in
      let (n, n') = named_iff (λ e. ⊥) ids refs in
      (
        (λ h. elim (f h) [
          | inl e ↦ inl e
          | inr e ↦ inr (elim (f' e) [
            | inl none_expected ↦ inl (n none_expected)
            | inr (supplied, same, each) ↦
                inr
                  (supplied, same, (named_iff (λ e. text_at p supplied e.0 ≡ e.1) ids refs).0 each)
          ])
        ]),
        λ h. g (elim h [
          | inl e ↦ inl e
          | inr k ↦ inr (
              g' (elim k [
                | inl none_expected ↦ inl (n' none_expected)
                | inr (supplied, same, each) ↦ inr (
                  supplied,
                  same,
                  (named_iff (λ e. text_at p supplied e.0 ≡ e.1) ids refs).1 each,
                )
              ]))
        ]),
      )
