-- ===== src/Execution/Bounded.antt =====
-- How often `_run_command_check` of validation_execution.py runs a command.
use workspace_governance_con.Prelude.{
  ℕ, zero, suc, ◌≤◌, ◌≡◌, refl, ap, ◌⊎◌, inl, inr, true, false, List, [], ◌∷◌, length, Bool-cases,
  arith,
}
use workspace_governance_con.Execution.Model.{Attempt}
use workspace_governance_con.Execution.Attempts.{succeeded, attempts_from}

-- Attempts in a row: each but the last has failed, and the last has succeeded or no attempt is left.
abbrev pub Tries : ℕ → List Attempt → Type 0
Tries left [] = left ≡ 0
Tries left (a ∷ []) = (succeeded a ≡ true) ⊎ (left ≡ 1)
Tries zero (a ∷ b ∷ rest) = ⊥
Tries (suc left) (a ∷ b ∷ rest) = (succeeded a ≡ false) × Tries left (b ∷ rest)

Tries-cons :
    (a : Attempt) (left : ℕ) (rest : List Attempt)
    → succeeded a ≡ false
    → Tries left rest × (length rest ≤ left)
    → Tries (suc left) (a ∷ rest) × (suc (length rest) ≤ suc left)
Tries-cons a left [] e h = (inr (ap suc h.0), omega arith)
Tries-cons a left (b ∷ rest) e h = ((e, h.0), omega arith)

-- A command is tried until it succeeds, and at most as often as there are attempts.
pub attempts_from-Tries :
    (run : ℕ → Attempt) (attempt left : ℕ)
    → Tries left (attempts_from run attempt left) × (length (attempts_from run attempt left) ≤ left)
unfolding attempts_from
attempts_from-Tries run attempt zero = (refl, omega arith)
attempts_from-Tries run attempt (suc left) = elim (Bool-cases (succeeded (run attempt))) [
  | inl e ↦ rw e ((inl e, omega arith))
  | inr e ↦ rw e (
      Tries-cons (run attempt) left (attempts_from run (suc attempt) left) e
        (attempts_from-Tries run (suc attempt) left))
]
