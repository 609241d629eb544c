-- ===== src/Execution/Places.antt =====
-- Where a path lies, said without `_is_relative_to` of validation_execution.py.
use workspace_governance_con.Prelude.{◌≡◌, ◌↔◌, refl, sym, true, [], ◌∷◌, ◌++◌, eq_iff, arith}
use mathlib.Core.Path.{ap₂, subst}
use workspace_governance_con.Retention.Disk.{FilePath, is_relative_to}

-- A path is a parent followed by more names.
abbrev pub IsUnder : FilePath → FilePath → Type 0
IsUnder parent path = (rest : FilePath) × (path ≡ parent ++ rest)

under_itself : (parent rest : FilePath) → is_relative_to (parent ++ rest) parent ≡ true
unfolding is_relative_to
under_itself [] rest = refl
under_itself (a ∷ parent) rest = ground (arith, (eq_iff a a).1 refl, under_itself parent rest)

is_relative_to-IsUnder :
    (path parent : FilePath) → is_relative_to path parent ≡ true → IsUnder parent path
unfolding is_relative_to
is_relative_to-IsUnder path [] h = (path, refl)
is_relative_to-IsUnder [] (b ∷ parent) h = cc
is_relative_to-IsUnder (a ∷ path) (b ∷ parent) h =
    let (rest, e) = is_relative_to-IsUnder path parent (ground arith) in
    (rest, ap₂ ◌∷◌ ((eq_iff a b).0 (ground arith)) e)

-- `relative_to` succeeds exactly on the paths under the parent.
pub is_relative_to-IsUnder_iff :
    (path parent : FilePath) → (is_relative_to path parent ≡ true) ↔ IsUnder parent path
is_relative_to-IsUnder_iff path parent = (
  is_relative_to-IsUnder path parent,
  λ (rest, e). subst (λ q. is_relative_to q parent ≡ true) (sym e) (under_itself parent rest),
)
