-- ===== src/Plan/Patterns.antt =====
-- Which scopes a declared scope matches, said without `_scope_matches` of validation_planning.py.
use workspace_governance_con.Prelude.{
  ◌≡◌, ◌≢◌, ◌↔◌, refl, ap, sym, ◌∙◌, ◌⊎◌, inl, inr, Bool, true, false, not, ◌&&◌, String, str_eq,
  Bool-cases, eq_iff, if◌then◌else◌,
}
use workspace_governance_con.Prelude.Text.{is_empty, ends_with, without_last, starts_with}
use workspace_governance_con.Prelude.Affixes.{
  starts_with-append, starts_with-rest, without_last-append, ends_with-append,
  ends_with-without_last,
}
use workspace_governance_con.Plan.Targets.{scope_matches}
use Prim.Native.String.{◌++◌ as ◌<>◌}
use text.Mathlib.TextLemmas.{append-nil, append_cancel_left}

-- A prefix that is not empty, then a star: it covers the longer texts with that prefix.
abbrev pub IsPattern : String → String → Type 0
IsPattern declared target =
    (prefix : String) × (rest : String) × (prefix ≢ "")
    × (rest ≢ "")
    × (declared ≡ prefix <> "*")
    × (target ≡ prefix <> rest)

-- The chain of the tests of the function.
abbrev tests : Bool → Bool → Bool → Bool → Bool → Bool
tests same star empty starts whole =
    if same then true else if star then not empty && starts && not whole else false

tests-true :
    (same star empty starts whole : Bool)
    → tests same star empty starts whole ≡ true
    → (same ≡ true) ⊎ ((star ≡ true) × ((empty ≡ false) × ((starts ≡ true) × (whole ≡ false))))
tests-true true star empty starts whole h = inl refl
tests-true false true false true false h = inr (refl, (refl, (refl, refl)))
tests-true false true false true true h = cc
tests-true false true false false whole h = cc
tests-true false true true starts whole h = cc
tests-true false false empty starts whole h = cc

tests_hold :
    (same star empty starts whole : Bool)
    → star ≡ true
    → empty ≡ false
    → starts ≡ true
    → whole ≡ false
    → tests same star empty starts whole ≡ true
tests_hold true star empty starts whole a b c d = refl
tests_hold false star empty starts whole a b c d = rw (a, b, c, d)

tests_same :
    (same star empty starts whole : Bool) → same ≡ true → tests same star empty starts whole ≡ true
tests_same same star empty starts whole e = rw e

empty-false : (s : String) → s ≢ "" → is_empty s ≡ false
empty-false String.[] h = absurd (h refl)
empty-false (String.◌∷◌ c s) h = refl

not_empty : (s : String) → is_empty s ≡ false → s ≢ ""
not_empty s h = λ e. let f = ap is_empty e in cc

other_text : (s t : String) → s ≢ t → str_eq s t ≡ false
other_text s t h = elim (Bool-cases (str_eq s t)) [
  | inl e ↦ absurd (h ((eq_iff s t).0 e))
  | inr e ↦ e
]

covered :
    (prefix rest : String)
    → prefix ≢ ""
    → rest ≢ ""
    → scope_matches (prefix <> "*") (prefix <> rest) ≡ true
unfolding scope_matches
covered prefix rest p r =
    let whole = without_last-append prefix in
    tests_hold (str_eq (prefix <> "*") (prefix <> rest)) _ _ _ _ (ends_with-append prefix)
      (ap is_empty whole ∙ empty-false prefix p)
      (ap (λ q. starts_with q (prefix <> rest)) whole ∙ starts_with-append prefix rest)
      (ap (λ q. str_eq (prefix <> rest) q) whole
        ∙ other_text (prefix <> rest) prefix
            (λ e. r (append_cancel_left prefix rest "" (e ∙ sym (append-nil prefix)))))

ends_with-IsPattern :
    (declared target : String)
    → ends_with "*" declared ≡ true
    → is_empty (without_last declared) ≡ false
    → starts_with (without_last declared) target ≡ true
    → str_eq target (without_last declared) ≡ false
    → IsPattern declared target
ends_with-IsPattern declared target star empty starts whole =
    let (rest, e) = starts_with-rest (without_last declared) target starts in
    (
      without_last declared,
      rest,
      not_empty (without_last declared) empty,
      (λ n.
          let same =
            (eq_iff target (without_last declared)).1
              (e ∙ (ap (λ r. without_last declared <> r) n ∙ append-nil (without_last declared))) in
          cc),
      ends_with-without_last declared star,
      e,
    )

-- A declared scope matches itself and, where it is a pattern, what the pattern covers.
pub scope_matches_iff :
    (declared target : String)
    → (scope_matches declared target ≡ true) ↔ ((declared ≡ target) ⊎ IsPattern declared target)
unfolding scope_matches
scope_matches_iff declared target = (
  (λ h.
      elim (tests-true (str_eq declared target) (ends_with "*" declared)
        (is_empty (without_last declared)) (starts_with (without_last declared) target)
        (str_eq target (without_last declared)) h) [
          | inl same ↦ inl ((eq_iff declared target).0 same)
          | inr (star, (empty, (starts, whole))) ↦
              inr (ends_with-IsPattern declared target star empty starts whole)
        ]),
  λ h. elim h [
    | inl same ↦
        tests_same (str_eq declared target) (ends_with "*" declared)
          (is_empty (without_last declared)) (starts_with (without_last declared) target)
          (str_eq target (without_last declared)) ((eq_iff declared target).1 same)
    | inr (prefix, rest, p, r, d, t) ↦
        ap (λ d'. scope_matches d' target) d
        ∙ (ap (scope_matches (prefix <> "*")) t ∙ covered prefix rest p r)
  ],
)
