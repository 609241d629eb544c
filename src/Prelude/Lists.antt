-- ===== src/Prelude/Lists.antt =====
-- Lists measured by native numbers, and predicates on lists by recursion.
use Prim.Native.Nat.{ℕ, zero, suc, ◌+◌, ◌-◌, ◌≤◌, min}
use mathlib.Core.Path.{◌≡◌, refl, ap, sym, subst}
use mathlib.Core.Bool.{Bool, true, false, ◌&&◌, ◌||◌}
use mathlib.Core.Option.{Option, none, some}
use mathlib.Core.List.{List, [], ◌∷◌, ◌++◌}
use native.Mathlib.Nat.{zero-add, suc-add}
use native.Mathlib.Omega.{arith}
use text.Mathlib.TextEquality.{eq_iff}
use workspace_governance_con.Prelude.Tests.{if◌then◌else◌, str_eq, Bool-cases}
use Prim.Native.Nat.{Ordering}
use Prim.Native.String.{String, compare}
use mathlib.Core.Logic.{◌↔◌, ◌≢◌, inl, inr}

module _ {ℓ} {A : Type ℓ} where
  abbrev pub length : List A → ℕ
  length [] = 0
  length (x ∷ xs) = suc (length xs)

  abbrev pub take : ℕ → List A → List A
  take zero xs = []
  take (suc n) [] = []
  take (suc n) (x ∷ xs) = x ∷ take n xs

  abbrev pub drop : ℕ → List A → List A
  drop zero xs = xs
  drop (suc n) [] = []
  drop (suc n) (x ∷ xs) = drop n xs

  -- Python's `[x for x in xs if p(x)]`.
  abbrev pub filter : (A → Bool) → List A → List A
  filter p [] = []
  filter p (x ∷ xs) = let rest = filter p xs in if p x then x ∷ rest else rest

  -- Python's `any(p(x) for x in xs)`.
  abbrev pub any : (A → Bool) → List A → Bool
  any p [] = false
  any p (x ∷ xs) = p x || any p xs

  abbrev pub all : (A → Bool) → List A → Bool
  all p [] = true
  all p (x ∷ xs) = p x && all p xs

  pub length-append : (xs ys : List A) → length (xs ++ ys) ≡ length xs + length ys
  length-append [] ys = omega arith
  length-append (x ∷ xs) ys = omega (arith, length-append xs ys)

  pub take-append-drop : (n : ℕ) (xs : List A) → take n xs ++ drop n xs ≡ xs
  take-append-drop zero xs = refl
  take-append-drop (suc n) [] = refl
  take-append-drop (suc n) (x ∷ xs) = ap (◌∷◌ x) (take-append-drop n xs)

  pub length-take : (n : ℕ) (xs : List A) → length (take n xs) ≡ min n (length xs)
  length-take zero xs = omega arith
  length-take (suc n) [] = omega arith
  length-take (suc n) (x ∷ xs) = omega (arith, length-take n xs)

  pub length-drop : (n : ℕ) (xs : List A) → length (drop n xs) ≡ length xs - n
  length-drop zero xs = omega arith
  length-drop (suc n) [] = omega arith
  length-drop (suc n) (x ∷ xs) = omega (arith, length-drop n xs)

module _ {ℓ} {A : Type ℓ} where
  pub drop-drop : (m n : ℕ) (xs : List A) → drop m (drop n xs) ≡ drop (n + m) xs
  drop-drop m zero xs = rw zero-add
  drop-drop zero (suc n) [] = rw suc-add
  drop-drop (suc m) (suc n) [] = rw suc-add
  drop-drop m (suc n) (x ∷ xs) = rw suc-add (drop-drop m n xs)

  pub take_all : (n : ℕ) (xs : List A) → length xs ≤ n → take n xs ≡ xs
  take_all zero [] h = refl
  take_all zero (x ∷ xs) h = absurd (omega arith)
  take_all (suc n) [] h = refl
  take_all (suc n) (x ∷ xs) h = ap (◌∷◌ x) (take_all n xs (omega arith))

-- Every entry satisfies the predicate.
abbrev pub All {ℓ κ} : {A : Type ℓ} → (A → Type κ) → List A → Type κ
All P [] = Unit
All P (x ∷ xs) = P x × All P xs

-- Python's `dict.get(key)` on a table of constants.
unfoldable pub lookup {ℓ} : {V : Type ℓ} → String → List (String × V) → Option V
lookup k [] = none
lookup k ((j, v) ∷ m) = if str_eq k j then some v else lookup k m

-- Python's `s in {…}`.
unfoldable pub contains : String → List String → Bool
contains s [] = false
contains s (x ∷ xs) = str_eq s x || contains s xs

-- Python's `sorted(set(texts))`; `str` is ordered by code points, as `String` is.
place : Ordering → String → String → List String → List String → List String
place Ordering.lt s t ts inserted = s ∷ t ∷ ts
place Ordering.eq s t ts inserted = t ∷ ts
place Ordering.gt s t ts inserted = t ∷ inserted

insert : String → List String → List String
unfolding place
insert s [] = s ∷ []
insert s (t ∷ ts) = let inserted = insert s ts in place (compare s t) s t ts inserted

unfoldable pub sorted_set : List String → List String
unfolding insert
sorted_set [] = []
sorted_set (s ∷ ss) = insert s (sorted_set ss)

place-ne_nil : (o : Ordering) (s t : String) (ts r : List String) → place o s t ts r ≢ []
unfolding place
place-ne_nil Ordering.lt s t ts r = λ e. cc
place-ne_nil Ordering.eq s t ts r = λ e. cc
place-ne_nil Ordering.gt s t ts r = λ e. cc

insert-ne_nil : (s : String) (ts : List String) → insert s ts ≢ []
unfolding insert
insert-ne_nil s [] = λ e. cc
insert-ne_nil s (t ∷ ts) = place-ne_nil (compare s t) s t ts (insert s ts)

pub sorted_set-nil_iff : (ss : List String) → (sorted_set ss ≡ []) ↔ (ss ≡ [])
unfolding sorted_set
sorted_set-nil_iff [] = ((λ h. h), λ h. h)
sorted_set-nil_iff (s ∷ ss) = ((λ h. absurd (insert-ne_nil s (sorted_set ss) h)), λ h. cc)

pub contains-All {κ} :
    (P : String → Type κ) (s : String) (xs : List String) → All P xs → contains s xs ≡ true → P s
unfolding contains
contains-All P s [] h e = cc
contains-All P s (x ∷ xs) h e = elim (Bool-cases (str_eq s x)) [
  | inl same ↦ subst P (sym ((eq_iff s x).0 same)) h.0
  | inr other ↦ contains-All P s xs h.1 (ground arith)
]
