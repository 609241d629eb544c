-- ===== src/Retention/Lines.antt =====
-- `bytes.splitlines(keepends=True)`, as lifecycle.py splits a ledger, and its laws.
use workspace_governance_con.Prelude.{
  ℕ, zero, suc, ◌+◌, ◌≤◌, ◌≡◌, refl, Bool, true, false, List, [], ◌∷◌, ◌++◌, arith, ◌==◌, ◌||◌,
  ◌&&◌, not, length, if◌then◌else◌, Bool-cases, inl, inr, All, drop,
}
use mathlib.Core.Path.{subst}
use mathlib.Core.List.{append_assoc}

abbrev pub Bytes : Type 0
Bytes = List ℕ

-- A byte in front of the first line.
abbrev onto_first : ℕ → List Bytes → List Bytes
onto_first c [] = (c ∷ []) ∷ []
onto_first c (l ∷ ls) = (c ∷ l) ∷ ls

-- A line ends after a line feed, or after a carriage return that no line feed follows.
ends_line : ℕ → Bytes → Bool
ends_line c [] = c == 10 || c == 13
ends_line c (d ∷ rest) = c == 10 || (c == 13 && not (d == 10))

unfoldable pub splitlines : Bytes → List Bytes
unfolding ends_line
splitlines [] = []
splitlines (c ∷ rest) =
    let ls = splitlines rest in if ends_line c rest then (c ∷ []) ∷ ls else onto_first c ls

-- `b"".join(lines)`
unfoldable pub join : List Bytes → Bytes
join [] = []
join (l ∷ ls) = l ++ join ls

join-onto_first : (c : ℕ) (ls : List Bytes) → join (onto_first c ls) ≡ c ∷ join ls
unfolding join
join-onto_first c [] = refl
join-onto_first c (l ∷ ls) = refl

-- Splitting loses no byte.
pub join-splitlines : (b : Bytes) → join (splitlines b) ≡ b
unfolding splitlines join
join-splitlines [] = refl
join-splitlines (c ∷ rest) = elim (Bool-cases (ends_line c rest)) [
  | inl e ↦ rw (e, join-splitlines rest)
  | inr e ↦ rw (e, join-onto_first, join-splitlines rest)
]

pub join-append : (xs ys : List Bytes) → join (xs ++ ys) ≡ join xs ++ join ys
unfolding join
join-append [] ys = refl
join-append (x ∷ xs) ys = rw (join-append xs ys, append_assoc)

length-onto_first : (c : ℕ) (ls : List Bytes) → length (onto_first c ls) ≤ length ls + 1
length-onto_first c [] = omega arith
length-onto_first c (l ∷ ls) = omega arith

onto_first-le :
    (c n : ℕ) (xs ys : List Bytes)
    → length ys ≤ length xs + n
    → length (onto_first c ys) ≤ length (onto_first c xs) + n
onto_first-le c n [] [] h = omega arith
onto_first-le c n [] (y ∷ ys) h = omega arith
onto_first-le c n (x ∷ xs) [] h = omega arith
onto_first-le c n (x ∷ xs) (y ∷ ys) h = omega arith

abbrev put : Bool → ℕ → List Bytes → List Bytes
put ends c ls = if ends then (c ∷ []) ∷ ls else onto_first c ls

put_one :
    (e f : Bool) (c : ℕ) (ls : List Bytes) → length (put e c ls) ≤ length (put f c []) + length ls
put_one true true c ls = omega arith
put_one true false c ls = omega arith
put_one false true c ls = omega (arith, length-onto_first c ls)
put_one false false c ls = omega (arith, length-onto_first c ls)

put-le :
    (e : Bool) (c n : ℕ) (xs ys : List Bytes)
    → length ys ≤ length xs + n
    → length (put e c ys) ≤ length (put e c xs) + n
put-le true c n xs ys h = omega arith
put-le false c n xs ys h = onto_first-le c n xs ys h

-- Two texts written one after the other have at most as many lines as both together.
pub length-splitlines-append :
    (a b : Bytes) → length (splitlines (a ++ b)) ≤ length (splitlines a) + length (splitlines b)
unfolding splitlines
length-splitlines-append [] b = omega arith
length-splitlines-append (c ∷ []) b = put_one (ends_line c b) (ends_line c []) c (splitlines b)
length-splitlines-append (c ∷ d ∷ a) b =
    put-le (ends_line c (d ∷ a)) c (length (splitlines b)) (splitlines (d ∷ a))
      (splitlines ((d ∷ a) ++ b)) (length-splitlines-append (d ∷ a) b)

-- A text of at most one line.
abbrev pub IsLine : Bytes → Type 0
IsLine l = length (splitlines l) ≤ 1

pub length-splitlines-join :
    (ls : List Bytes) → All IsLine ls → length (splitlines (join ls)) ≤ length ls
unfolding join
length-splitlines-join [] h = unfold splitlines in omega arith
length-splitlines-join (l ∷ ls) h =
    omega (arith, h.0, length-splitlines-append l (join ls), length-splitlines-join ls h.1)

short_first : (c : ℕ) (ls : List Bytes) → length ls ≤ 1 → length (onto_first c ls) ≤ 1
short_first c [] h = omega arith
short_first c (l ∷ ls) h = h

longer-IsLine :
    (c d : ℕ) (l : Bytes) → ends_line c (d ∷ l) ≡ false → IsLine (d ∷ l) → IsLine (c ∷ d ∷ l)
unfolding splitlines
longer-IsLine c d l e h = rw e (short_first c (splitlines (d ∷ l)) h)

one-IsLine : (c : ℕ) → IsLine (c ∷ [])
unfolding splitlines
one-IsLine c = put_one (ends_line c []) true c []

cons_first :
    (c : ℕ) (ls : List Bytes) → (l : Bytes) × (ms : List Bytes) × (onto_first c ls ≡ (c ∷ l) ∷ ms)
cons_first c [] = ([], [], refl)
cons_first c (l ∷ ls) = (l, ls, refl)

put_same : (e : Bool) (c : ℕ) → put e c [] ≡ (c ∷ []) ∷ []
put_same true c = refl
put_same false c = refl

-- The first line of a text that is not empty starts with the text's first byte.
first_line :
    (c : ℕ) (rest : Bytes)
    → (l : Bytes) × (ls : List Bytes) × (splitlines (c ∷ rest) ≡ (c ∷ l) ∷ ls)
unfolding splitlines
first_line c rest = elim (Bool-cases (ends_line c rest)) [
  | inl e ↦ ([], splitlines rest, rw e)
  | inr e ↦ rw e (cons_first c (splitlines rest))
]

-- Every part of a split is a line.
pub splitlines-IsLine : (b : Bytes) → All IsLine (splitlines b)
unfolding splitlines
splitlines-IsLine [] = tt
splitlines-IsLine (c ∷ []) = rw (put_same (ends_line c []) c) (one-IsLine c, tt)
splitlines-IsLine (c ∷ d ∷ r) = elim (Bool-cases (ends_line c (d ∷ r))) [
  | inl e ↦ rw e (one-IsLine c, splitlines-IsLine (d ∷ r))
  | inr e ↦
      let (l, ls, split) = first_line d r in
      let ih = subst (All IsLine) split (splitlines-IsLine (d ∷ r)) in
      rw (e, split) (longer-IsLine c d l e ih.0, ih.1)
]

pub All-drop {ℓ κ} :
    {A : Type ℓ} (P : A → Type κ) (n : ℕ) (xs : List A) → All P xs → All P (drop n xs)
All-drop P zero xs h = h
All-drop P (suc n) [] h = tt
All-drop P (suc n) (x ∷ xs) h = All-drop P n xs h.1
