-- ===== src/Prelude/Ascending.antt =====
-- Python's `sorted` puts a list in order, and `<=` on texts compares any two.
use Prim.Native.Nat.{ℕ, zero, suc, Ordering, compare as compare_ℕ}
use Prim.Native.Nat.compare as compare_ℕ
use Prim.Native.Char.{code}
use Prim.Native.String.{String, compare, then as by_first}
use Prim.Native.String.compare
use mathlib.Core.Path.{◌≡◌, refl, ap, sym, ◌∙◌}
use mathlib.Core.Path.{ap₂}
use mathlib.Core.Bool.{Bool, true, false}
use mathlib.Core.List.{List, [], ◌∷◌, Perm}
use mathlib.Core.List.Perm
use mathlib.Core.Logic.{inl, inr}
use workspace_governance_con.Prelude.Tests.{Bool-cases}
use workspace_governance_con.Prelude.Text.{text_le}
use workspace_governance_con.Prelude.Sorting.{insert_by, sort_by}

flip : Ordering → Ordering
flip Ordering.lt = Ordering.gt
flip Ordering.eq = Ordering.eq
flip Ordering.gt = Ordering.lt

then-flip : (a b : Ordering) → by_first (flip a) (flip b) ≡ flip (by_first a b)
unfolding flip
then-flip Ordering.lt b = refl
then-flip Ordering.eq b = refl
then-flip Ordering.gt b = refl

number-flip : (m n : ℕ) → compare_ℕ n m ≡ flip (compare_ℕ m n)
unfolding flip
number-flip zero zero = refl
number-flip zero (suc n) = compare_ℕ.suc-zero n ∙ ap flip (sym (compare_ℕ.zero-suc n))
number-flip (suc m) zero = compare_ℕ.zero-suc m ∙ ap flip (sym (compare_ℕ.suc-zero m))
number-flip (suc m) (suc n) =
    compare_ℕ.suc-suc n m ∙ (number-flip m n ∙ ap flip (sym (compare_ℕ.suc-suc m n)))

text-flip : (s t : String) → compare t s ≡ flip (compare s t)
unfolding flip
text-flip String.[] String.[] = refl
text-flip String.[] (String.◌∷◌ d t) = compare.cons-nil d t ∙ ap flip (sym (compare.nil-cons d t))
text-flip (String.◌∷◌ c s) String.[] = compare.nil-cons c s ∙ ap flip (sym (compare.cons-nil c s))
text-flip (String.◌∷◌ c s) (String.◌∷◌ d t) =
    compare.cons-cons d c t s
    ∙ (ap₂ by_first (number-flip (code c) (code d)) (text-flip s t)
        ∙ (then-flip (compare_ℕ (code c) (code d)) (compare s t)
            ∙ ap flip (sym (compare.cons-cons c d s t))))

flipped_le :
    (o : Ordering)
    → (elim o as (λ _. Bool) [ Ordering.gt ↦ false | _ ↦ true ]) ≡ false
    → (elim (flip o) as (λ _. Bool) [ Ordering.gt ↦ false | _ ↦ true ]) ≡ true
unfolding flip
flipped_le Ordering.lt h = cc
flipped_le Ordering.eq h = cc
flipped_le Ordering.gt h = refl

-- Of two texts, one is at most the other.
pub text_le_total : (s t : String) → text_le s t ≡ false → text_le t s ≡ true
text_le_total s t h =
    ap (λ o. elim o as (λ _. Bool) [ Ordering.gt ↦ false | _ ↦ true ]) (text-flip s t)
    ∙ flipped_le (compare s t) h

-- Each entry is at most the next.
abbrev pub IsAscending {ℓ} : {A : Type ℓ} → (A → A → Bool) → List A → Type 0
IsAscending le [] = Unit
IsAscending le (x ∷ []) = Unit
IsAscending le (x ∷ y ∷ rest) = (le x y ≡ true) × IsAscending le (y ∷ rest)

module _ {ℓ} {A : Type ℓ} (le : A → A → Bool)
    (total : (a b : A) → le a b ≡ false → le b a ≡ true) where
  insert_after :
      (y x : A) (ys : List A)
      → le y x ≡ true
      → IsAscending le (y ∷ ys)
      → IsAscending le (insert_by le x ys)
      → IsAscending le (y ∷ insert_by le x ys)
  unfolding insert_by
  insert_after y x [] h a i = (h, tt)
  insert_after y x (z ∷ zs) h a i = elim (Bool-cases (le x z)) [
    | inl e ↦ rw e ((h, (e, a.1)))
    | inr e ↦ rw e (a.0, rw e at i)
  ]

  tail-IsAscending : (y : A) (ys : List A) → IsAscending le (y ∷ ys) → IsAscending le ys
  tail-IsAscending y [] a = tt
  tail-IsAscending y (z ∷ zs) a = a.1

  insert_by-IsAscending :
      (x : A) (ys : List A) → IsAscending le ys → IsAscending le (insert_by le x ys)
  unfolding insert_by
  insert_by-IsAscending x [] a = tt
  insert_by-IsAscending x (y ∷ ys) a = elim (Bool-cases (le x y)) [
    | inl e ↦ rw e ((e, a))
    | inr e ↦
        rw e (
          insert_after y x ys (total x y e) a
            (insert_by-IsAscending x ys (tail-IsAscending y ys a)))
  ]

  -- A sorted list is ascending.
  pub sort_by-IsAscending : (xs : List A) → IsAscending le (sort_by le xs)
  unfolding sort_by
  sort_by-IsAscending [] = tt
  sort_by-IsAscending (x ∷ xs) = insert_by-IsAscending x (sort_by le xs) (sort_by-IsAscending xs)

module _ {ℓ} {A : Type ℓ} (le : A → A → Bool) where
  insert_by-perm : (x : A) (ys : List A) → Perm (insert_by le x ys) (x ∷ ys)
  unfolding insert_by
  insert_by-perm x [] = Perm.rfl
  insert_by-perm x (y ∷ ys) = elim (Bool-cases (le x y)) [
    | inl e ↦ rw e Perm.rfl
    | inr e ↦ rw e (Perm.trans (Perm.cons y (insert_by-perm x ys)) (Perm.swap x y ys))
  ]

  -- A sorted list is a rearrangement of the list.
  pub sort_by-perm : (xs : List A) → Perm (sort_by le xs) xs
  unfolding sort_by
  sort_by-perm [] = Perm.rfl
  sort_by-perm (x ∷ xs) =
      Perm.trans (insert_by-perm x (sort_by le xs)) (Perm.cons x (sort_by-perm xs))
