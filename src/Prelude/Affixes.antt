-- ===== src/Prelude/Affixes.antt =====
-- Texts put together and cut again: a prefix, and a star at the end.
use Prim.Native.Char.{code}
use Prim.Native.Nat.{ℕ}
use Prim.Native.String.{String, ◌++◌ as ◌<>◌}
use mathlib.Core.Path.{◌≡◌, refl, ap, sym, ◌∙◌}
use mathlib.Core.Bool.{Bool, true, false, ◌||◌}
use mathlib.Core.Option.{Option, none, some, some-injective}
use native.Mathlib.Omega.{arith}
use text.Mathlib.TextEquality.{eq_iff, Char-path}
use text.Mathlib.TextLemmas.{nil-append, cons-append, tail-eq_of_cons-eq, cons≢nil}
use workspace_governance_con.Prelude.Tests.{◌==◌, if◌then◌else◌}
use workspace_governance_con.Prelude.Text.{cut, remove_prefix, starts_with, ends_with, without_last}

same_code : (n : ℕ) (o : Option String) → (if n == n then o else none) ≡ o
same_code n o = ground arith

cut-append : (prefix rest : String) → cut prefix (prefix <> rest) ≡ some rest
unfolding cut
cut-append String.[] rest = ap some (nil-append rest)
cut-append (String.◌∷◌ c s) rest =
    ap (cut (String.◌∷◌ c s)) (cons-append c s rest)
    ∙ (same_code (code c) (cut s (s <> rest)) ∙ cut-append s rest)

equal_codes :
    (m n : ℕ) (o : Option String) (rest : String)
    → (if m == n then o else none) ≡ some rest
    → (n ≡ m) × (o ≡ some rest)
equal_codes m n o rest h = ground arith

cut_sound : (prefix s rest : String) → cut prefix s ≡ some rest → s ≡ prefix <> rest
unfolding cut
cut_sound String.[] s rest h = some-injective s rest h ∙ sym (nil-append rest)
cut_sound (String.◌∷◌ p ps) String.[] rest h = cc
cut_sound (String.◌∷◌ p ps) (String.◌∷◌ c s) rest h =
    let (same, more) = equal_codes (code p) (code c) (cut ps s) rest h in
    ap (λ d. String.◌∷◌ d s) (Char-path c p same)
    ∙ (ap (String.◌∷◌ p) (cut_sound ps s rest more) ∙ sym (cons-append p ps rest))

found_prefix :
    (o : Option String)
    → (elim o [ none ↦ false | some rest ↦ true ]) ≡ true
    → (rest : String) × (o ≡ some rest)
found_prefix none h = cc
found_prefix (some rest) h = (rest, refl)

pub starts_with-append : (prefix rest : String) → starts_with prefix (prefix <> rest) ≡ true
unfolding starts_with
starts_with-append prefix rest =
    ap (λ o. elim o as (λ _. Bool) [ none ↦ false | some _ ↦ true ]) (cut-append prefix rest)

-- What is put in front is removed again.
pub remove_prefix-append : (prefix rest : String) → remove_prefix prefix (prefix <> rest) ≡ rest
unfolding remove_prefix
remove_prefix-append prefix rest =
    ap (λ o. elim o as (λ _. String) [ none ↦ prefix <> rest | some r ↦ r ])
      (cut-append prefix rest)

pub starts_with-rest :
    (prefix s : String) → starts_with prefix s ≡ true → (rest : String) × (s ≡ prefix <> rest)
unfolding starts_with
starts_with-rest prefix s h =
    let (rest, e) = found_prefix (cut prefix s) h in (rest, cut_sound prefix s rest e)

pub without_last-append : (s : String) → without_last (s <> "*") ≡ s
unfolding without_last
without_last-append String.[] = refl
without_last-append (String.◌∷◌ c String.[]) = ap without_last (cons-append c "" "*")
without_last-append (String.◌∷◌ c (String.◌∷◌ d s)) =
    ap without_last (cons-append c (String.◌∷◌ d s) "*" ∙ ap (String.◌∷◌ c) (cons-append d s "*"))
    ∙ ap (String.◌∷◌ c)
        (sym (ap without_last (cons-append d s "*")) ∙ without_last-append (String.◌∷◌ d s))

or_right : (a b : Bool) → b ≡ true → (a || b) ≡ true
or_right a b h = ground arith

pub ends_with-append : (s : String) → ends_with "*" (s <> "*") ≡ true
unfolding ends_with
ends_with-append String.[] = refl
ends_with-append (String.◌∷◌ c s) =
    ap (ends_with "*") (cons-append c s "*")
    ∙ or_right _ (ends_with "*" (s <> "*")) (ends_with-append s)

or_left : (a b : Bool) → b ≡ false → (a || b) ≡ true → a ≡ true
or_left a b e h = ground arith

not_left : (a b : Bool) → (a ≡ true → ⊥) → (a || b) ≡ true → b ≡ true
not_left true b n h = absurd (n refl)
not_left false b n h = h

pub ends_with-without_last : (s : String) → ends_with "*" s ≡ true → s ≡ without_last s <> "*"
unfolding ends_with without_last
ends_with-without_last String.[] h = cc
ends_with-without_last (String.◌∷◌ c String.[]) h =
    (eq_iff (String.◌∷◌ c "") "*").0 (or_left _ _ refl h) ∙ refl
ends_with-without_last (String.◌∷◌ c (String.◌∷◌ d s)) h =
    ap (String.◌∷◌ c) (
      ends_with-without_last (String.◌∷◌ d s)
        (not_left _ _ (λ e. cons≢nil (tail-eq_of_cons-eq ((eq_iff _ "*").0 e))) h))
    ∙ sym (cons-append c (without_last (String.◌∷◌ d s)) "*")
