-- ===== src/Prelude/Sorting.antt =====
-- Python's stable `sorted` by a test on two entries, and what it keeps of a list.
use Prim.Native.Nat.{suc}
use mathlib.Core.Path.{◌≡◌, refl}
use mathlib.Core.Bool.{Bool, true, false, ◌||◌}
use mathlib.Core.List.{List, [], ◌∷◌}
use mathlib.Core.Logic.{◌⊎◌, inl, inr}
use native.Mathlib.Omega.{arith}
use workspace_governance_con.Prelude.Tests.{if◌then◌else◌}
use workspace_governance_con.Prelude.Lists.{length, any, All}

module _ {ℓ} {A : Type ℓ} (le : A → A → Bool) where
  unfoldable pub insert_by : A → List A → List A
  insert_by x [] = x ∷ []
  insert_by x (y ∷ ys) = let later = y ∷ insert_by x ys in if le x y then x ∷ y ∷ ys else later

  unfoldable pub sort_by : List A → List A
  unfolding insert_by
  sort_by [] = []
  sort_by (x ∷ xs) = insert_by x (sort_by xs)

  length-insert_by : (x : A) (ys : List A) → length (insert_by x ys) ≡ suc (length ys)
  unfolding insert_by
  length-insert_by x [] = refl
  length-insert_by x (y ∷ ys) = ground (arith, length-insert_by x ys)

  pub length-sort_by : (xs : List A) → length (sort_by xs) ≡ length xs
  unfolding sort_by
  length-sort_by [] = refl
  length-sort_by (x ∷ xs) = omega (arith, length-sort_by xs, length-insert_by x (sort_by xs))

  any-insert_by : (p : A → Bool) (x : A) (ys : List A) → any p (insert_by x ys) ≡ (p x || any p ys)
  unfolding insert_by
  any-insert_by p x [] = refl
  any-insert_by p x (y ∷ ys) = ground (arith, any-insert_by p x ys)

  -- Sorting neither adds nor loses what a test finds.
  pub any-sort_by : (p : A → Bool) (xs : List A) → any p (sort_by xs) ≡ any p xs
  unfolding sort_by
  any-sort_by p [] = refl
  any-sort_by p (x ∷ xs) = ground (arith, any-sort_by p xs, any-insert_by p x (sort_by xs))

-- An entry of a list.
abbrev pub Member : {A : Type 0} → A → List A → Type 0
Member x [] = ⊥
Member x (y ∷ ys) = (x ≡ y) ⊎ Member x ys

module _ {A : Type 0} (le : A → A → Bool) (P : A → Type 0) where
  All-placed :
      (b : Bool) (x y : A) (ys inserted : List A)
      → (All P inserted → P x × All P ys)
      → All P (if b then x ∷ y ∷ ys else y ∷ inserted)
      → P x × (P y × All P ys)
  All-placed true x y ys inserted rest h = h
  All-placed false x y ys inserted rest h = let (px, pys) = rest h.1 in (px, (h.0, pys))

  All-insert_by : (x : A) (ys : List A) → All P (insert_by le x ys) → P x × All P ys
  unfolding insert_by
  All-insert_by x [] h = h
  All-insert_by x (y ∷ ys) h = All-placed (le x y) x y ys (insert_by le x ys) (All-insert_by x ys) h

  -- What holds of the entries of the sorted list holds of those of the list.
  pub All-sort_by : (xs : List A) → All P (sort_by le xs) → All P xs
  unfolding sort_by
  All-sort_by [] h = tt
  All-sort_by (x ∷ xs) h =
      let (px, pxs) = All-insert_by x (sort_by le xs) h in (px, All-sort_by xs pxs)

module _ {A : Type 0} (le : A → A → Bool) where
  Member-placed :
      (b : Bool) (z x y : A) (ys inserted : List A)
      → (Member z inserted → (z ≡ x) ⊎ Member z ys)
      → Member z (if b then x ∷ y ∷ ys else y ∷ inserted)
      → (z ≡ x) ⊎ ((z ≡ y) ⊎ Member z ys)
  Member-placed true z x y ys inserted rest h = h
  Member-placed false z x y ys inserted rest (inl e) = inr (inl e)
  Member-placed false z x y ys inserted rest (inr h) = elim (rest h) [
    | inl e ↦ inl e
    | inr m ↦ inr (inr m)
  ]

  Member-insert_by : (z x : A) (ys : List A) → Member z (insert_by le x ys) → (z ≡ x) ⊎ Member z ys
  unfolding insert_by
  Member-insert_by z x [] h = h
  Member-insert_by z x (y ∷ ys) h =
      Member-placed (le x y) z x y ys (insert_by le x ys) (Member-insert_by z x ys) h

  -- An entry of the sorted list is one of the list.
  pub Member-sort_by : (z : A) (xs : List A) → Member z (sort_by le xs) → Member z xs
  unfolding sort_by
  Member-sort_by z [] h = h
  Member-sort_by z (x ∷ xs) h = elim (Member-insert_by z x (sort_by le xs) h) [
    | inl e ↦ inl e
    | inr m ↦ inr (Member-sort_by z xs m)
  ]
