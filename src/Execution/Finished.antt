-- ===== src/Execution/Finished.antt =====
-- When `_run_command_check` of validation_execution.py reports a success.
use workspace_governance_con.Prelude.{
  ℕ, zero, suc, ◌+◌, ◌≤◌, ◌==◌, ◌≡◌, ◌↔◌, refl, sym, ap, ◌∙◌, ◌⊎◌, inl, inr, Bool, true, false,
  Option, none, some, List, [], ◌∷◌, ◌++◌, Bool-cases, arith,
}
use mathlib.Core.Path.{subst}
use mathlib.Core.Option.{some-injective}
use workspace_governance_con.Prelude.Int.{ℤ, pos}
use workspace_governance_con.Plan.Model.{ValidationCheck}
use workspace_governance_con.Execution.Model.{AttemptError, success, Attempt}
use workspace_governance_con.Execution.Attempts.{
  is_success, last_attempt, observed_bytes, exceeded_budget,
}
use workspace_governance_con.Execution.Run.{exit_of, error_of, failing_budget, status_of, result_of}

-- The last attempt ended with exit code 0 and without an error.
abbrev pub EndsWell : List Attempt → Type 0
EndsWell attempts =
    (earlier : List Attempt) × (last : Attempt) × (attempts ≡ earlier ++ last ∷ [])
    × (last.exit_code ≡ some (pos 0))
    × (last.error ≡ none)

-- The sum of the sizes of some outputs.
abbrev pub total : (Attempt → ℕ) → List Attempt → ℕ
total size [] = 0
total size (a ∷ rest) = size a + total size rest

abbrev pub printed : List Attempt → ℕ
printed attempts = total (λ a. a.stdout_bytes) attempts + total (λ a. a.stderr_bytes) attempts

-- An amount that a budget allows, where there is one.
abbrev pub IsWithin : Option ℕ → ℕ → Type 0
IsWithin none amount = Unit
IsWithin (some budget) amount = amount ≤ budget

observed-printed : (attempts : List Attempt) → observed_bytes attempts ≡ printed attempts
unfolding observed_bytes
observed-printed [] = refl
observed-printed (a ∷ rest) = omega (arith, observed-printed rest)

exceeded-IsWithin :
    (budget : Option ℕ) (amount : ℕ)
    → (exceeded_budget budget amount ≡ none) ↔ IsWithin budget amount
unfolding exceeded_budget
exceeded-IsWithin none amount = ((λ h. tt), λ h. refl)
exceeded-IsWithin (some budget) amount = ((λ h. ground arith), λ h. ground arith)

last-append : (earlier : List Attempt) (a : Attempt) → last_attempt (earlier ++ a ∷ []) ≡ some a
unfolding last_attempt
last-append [] a = refl
last-append (x ∷ []) a = refl
last-append (x ∷ y ∷ rest) a = last-append (y ∷ rest) a

last-found :
    (attempts : List Attempt) (a : Attempt)
    → last_attempt attempts ≡ some a
    → (earlier : List Attempt) × (attempts ≡ earlier ++ a ∷ [])
unfolding last_attempt
last-found [] a h = cc
last-found (x ∷ []) a h = ([], ap (λ y. y ∷ []) (some-injective x a h))
last-found (x ∷ y ∷ rest) a h =
    let (earlier, e) = last-found (y ∷ rest) a h in (x ∷ earlier, ap (◌∷◌ x) e)

zero_iff : (n : ℕ) → ((n == 0) ≡ true) ↔ (some (pos n) ≡ some (pos 0))
zero_iff zero = ((λ h. refl), λ h. refl)
zero_iff (suc n) = ((λ h. ground arith), λ h. cc)

is_success_iff :
    (exit_code : Option ℤ) (error : Option AttemptError)
    → (is_success exit_code error ≡ true) ↔ ((exit_code ≡ some (pos 0)) × (error ≡ none))
is_success_iff none error = ((λ h. cc), λ h. let e = h.0 in cc)
is_success_iff (some (ℤ.pos n)) none = let (f, g) = zero_iff n in ((λ h. (f h, refl)), λ h. g h.0)
is_success_iff (some (ℤ.pos n)) (some e) = ((λ h. cc), λ h. let q = h.1 in cc)
is_success_iff (some (ℤ.negsuc n)) error = ((λ h. cc), λ h. let e = h.0 in cc)

last_iff :
    (o : Option Attempt)
    → (is_success (exit_of o) (error_of o) ≡ true)
      ↔ ((a : Attempt) × (o ≡ some a) × (a.exit_code ≡ some (pos 0)) × (a.error ≡ none))
last_iff none = ((λ h. cc), λ (a, e, x, r). cc)
last_iff (some a) =
    let (f, g) = is_success_iff a.exit_code a.error in
    (
      (λ h. let (x, r) = f h in (a, refl, x, r)),
      λ (b, e, x, r).
          let same = some-injective a b e in
          g (ap (λ c. c.exit_code) same ∙ x, ap (λ c. c.error) same ∙ r),
    )

last_attempt_iff :
    (attempts : List Attempt)
    → (is_success (exit_of (last_attempt attempts)) (error_of (last_attempt attempts)) ≡ true)
      ↔ EndsWell attempts
last_attempt_iff attempts =
    let (f, g) = last_iff (last_attempt attempts) in
    (
      (λ h.
          let (a, e, x, r) = f h in
          let (earlier, same) = last-found attempts a e in (earlier, a, same, x, r)),
      λ (earlier, a, same, x, r). g (a, ap last_attempt same ∙ last-append earlier a, x, r),
    )

failing_iff :
    (fails : Bool) (o : Option ℕ) → (failing_budget fails o ≡ none) ↔ ((fails ≡ false) ⊎ (o ≡ none))
failing_iff true o = ((λ h. inr h), λ h. elim h [ inl e ↦ cc | inr e ↦ e ])
failing_iff false o = ((λ h. inl refl), λ h. refl)

status_iff :
    (o : Option ℕ) (observed : ℕ) (exit_code : Option ℤ) (error : Option AttemptError)
    → ((status_of o observed exit_code error).0 ≡ success)
      ↔ ((o ≡ none) × (is_success exit_code error ≡ true))
unfolding status_of
status_iff (some budget) observed exit_code error = ((λ h. cc), λ h. cc)
status_iff none observed exit_code error = elim (Bool-cases (is_success exit_code error)) [
  | inl e ↦ rw e ((λ h. (refl, refl)), λ h. refl)
  | inr e ↦ rw e ((λ h. cc), λ h. cc)
]

-- A check that ran is a success exactly where its last attempt ended with exit code 0 and without an
-- error and, where the policy fails on it, the bytes that all attempts printed on both outputs are
-- within the budget, where there is one.
pub result_of-success_iff :
    (check : ValidationCheck) (fail_on_budget : Bool) (budget : Option ℕ) (attempts : List Attempt)
    → ((result_of check fail_on_budget budget attempts).status ≡ success)
      ↔ (EndsWell attempts × ((fail_on_budget ≡ false) ⊎ IsWithin budget (printed attempts)))
unfolding result_of
result_of-success_iff check fail_on_budget budget attempts =
    let o = exceeded_budget budget (observed_bytes attempts) in
    let (f, g) =
      status_iff (failing_budget fail_on_budget o) (observed_bytes attempts)
        (exit_of (last_attempt attempts)) (error_of (last_attempt attempts)) in
    let (f', g') = failing_iff fail_on_budget o in
    let (f'', g'') = last_attempt_iff attempts in
    let (w, w') = exceeded-IsWithin budget (observed_bytes attempts) in
    let same = ap (IsWithin budget) (observed-printed attempts) in
    (
      (λ h.
          let (a, b) = f h in
          (f'' b, elim (f' a) [ inl e ↦ inl e | inr e ↦ inr (subst (λ T. T) same (w e)) ])),
      λ h. g (
        g' (elim h.1 [ inl e ↦ inl e | inr e ↦ inr (w' (subst (λ T. T) (sym same) e)) ]),
        g'' h.0,
      ),
    )
