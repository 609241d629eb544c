-- ===== src/Prelude/Finding.antt =====
-- What Python's `any` and `in` find in a list, as entries of it.
use mathlib.Core.Path.{◌≡◌, refl, sym, ap, ◌∙◌}
use mathlib.Core.Bool.{Bool, true}
use mathlib.Core.List.{List, [], ◌∷◌}
use mathlib.Core.Logic.{inl, inr, ◌↔◌}
use text.Mathlib.TextEquality.{eq_iff}
use native.Mathlib.Omega.{arith}
use Prim.Native.String.{String}
use workspace_governance_con.Prelude.Tests.{Bool-cases, str_eq}
use workspace_governance_con.Prelude.Lists.{any, contains}
use workspace_governance_con.Prelude.Sorting.{Member}

module _ {A : Type 0} (p : A → Bool) where
  any_found : (xs : List A) → any p xs ≡ true → (x : A) × Member x xs × (p x ≡ true)
  any_found [] h = cc
  any_found (x ∷ xs) h = elim (Bool-cases (p x)) [
    | inl e ↦ (x, inl refl, e)
    | inr e ↦ let (y, m, q) = any_found xs (ground arith) in (y, inr m, q)
  ]

  found_any : (xs : List A) (x : A) → Member x xs → p x ≡ true → any p xs ≡ true
  found_any [] x m h = absurd m
  found_any (y ∷ xs) x (inl e) h = let here = ap p (sym e) ∙ h in ground arith
  found_any (y ∷ xs) x (inr m) h = let later = found_any xs x m h in ground arith

  -- A test holds of some entry of a list.
  pub any_iff : (xs : List A) → (any p xs ≡ true) ↔ ((x : A) × Member x xs × (p x ≡ true))
  any_iff xs = (any_found xs, λ (x, m, h). found_any xs x m h)

-- A text is one of a list.
pub contains_iff : (s : String) (ws : List String) → (contains s ws ≡ true) ↔ Member s ws
unfolding contains
contains_iff s [] = ((λ h. cc), λ h. absurd h)
contains_iff s (w ∷ ws) = (
  (λ h. elim (Bool-cases (str_eq s w)) [
    | inl e ↦ inl ((eq_iff s w).0 e)
    | inr e ↦ inr ((contains_iff s ws).0 (ground arith))
  ]),
  λ h. elim h [
    | inl e ↦ let here = (eq_iff s w).1 e in ground arith
    | inr m ↦ let later = (contains_iff s ws).1 m in ground arith
  ],
)
