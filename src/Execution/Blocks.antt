-- ===== src/Execution/Blocks.antt =====
-- What each test of `_safety_block_reason` of validation_execution.py lets through.
use workspace_governance_con.Prelude.{
  ◌≡◌, ◌↔◌, refl, ◌⊎◌, inl, inr, Bool, true, false, not, ◌&&◌, ◌||◌, Option, none, some, List, [],
  ◌∷◌, String, any, contains, Bool-cases, arith,
}
use workspace_governance_con.Prelude.Sorting.{Member}
use workspace_governance_con.Prelude.Finding.{any_iff, contains_iff}
use workspace_governance_con.Value.{Fields, get}
use workspace_governance_con.Platform.{Platform}
use workspace_governance_con.Budget.Decide.{is_nil}
use workspace_governance_con.Retention.Disk.{FilePath, Host, is_relative_to}
use workspace_governance_con.Retention.Candidates.{last_name}
use workspace_governance_con.Plan.Path.{parts}
use workspace_governance_con.Execution.Places.{IsUnder, is_relative_to-IsUnder_iff}
use workspace_governance_con.Execution.Model.{BlockReason}
use workspace_governance_con.Execution.Safety.{
  or_next, block_if, executable_allowed, string_set, in_allowed_roots, is_inside, resolve_under,
}

pub or_next_iff : (a b : Option BlockReason) → (or_next a b ≡ none) ↔ ((a ≡ none) × (b ≡ none))
or_next_iff none b = ((λ h. (refl, h)), λ h. h.1)
or_next_iff (some r) b = ((λ h. cc), λ h. cc)

-- A guard on a negated test.
pub unless_iff : (b : Bool) (r : BlockReason) → (block_if (not b) r ≡ none) ↔ (b ≡ true)
unless_iff true r = ((λ h. refl), λ h. refl)
unless_iff false r = ((λ h. cc), λ h. cc)

pub and_not_iff :
    (a b : Bool) (r : BlockReason) → (block_if (a && not b) r ≡ none) ↔ ((a ≡ false) ⊎ (b ≡ true))
and_not_iff true true r = ((λ h. inr refl), λ h. refl)
and_not_iff true false r = ((λ h. cc), λ h. elim h [ inl e ↦ cc | inr e ↦ cc ])
and_not_iff false b r = ((λ h. inl refl), λ h. refl)

pub if_iff : (b : Bool) (r : BlockReason) → (block_if b r ≡ none) ↔ (b ≡ false)
if_iff true r = ((λ h. cc), λ h. cc)
if_iff false r = ((λ h. refl), λ h. refl)

-- A list that is empty or has what is asked for.
pub listed_iff :
    (xs : List String) (b : Bool) (r : BlockReason)
    → (block_if (not (is_nil xs) && not b) r ≡ none) ↔ ((xs ≡ []) ⊎ (b ≡ true))
listed_iff [] b r = ((λ h. inl refl), λ h. refl)
listed_iff (x ∷ xs) true r = ((λ h. inr refl), λ h. refl)
listed_iff (x ∷ xs) false r = ((λ h. cc), λ h. elim h [ inl e ↦ cc | inr e ↦ cc ])

-- The executable, or its last name, is in the list.
executable_iff :
    (executable : String) (allowed : List String)
    → (executable_allowed executable allowed ≡ true)
      ↔ (Member executable allowed ⊎ Member (last_name (parts executable)) allowed)
unfolding executable_allowed
executable_iff executable allowed =
    let (f, g) = contains_iff executable allowed in
    let (f', g') = contains_iff (last_name (parts executable)) allowed in
    (
      (λ h. elim (Bool-cases (contains executable allowed)) [
        | inl e ↦ inl (f e)
        | inr e ↦ inr (f' (ground arith))
      ]),
      λ h. elim h [ inl m ↦ let e = g m in ground arith | inr m ↦ let e = g' m in ground arith ],
    )

-- A list with the executable, where there is a list.
pub executable_listed_iff :
    (executable : String) (allowed : List String) (r : BlockReason)
    → (block_if (not (is_nil allowed) && not (executable_allowed executable allowed)) r ≡ none) ↔ (
        (allowed ≡ [])
        ⊎ (Member executable allowed ⊎ Member (last_name (parts executable)) allowed))
executable_listed_iff executable allowed r =
    let (f, g) = listed_iff allowed (executable_allowed executable allowed) r in
    let (f', g') = executable_iff executable allowed in
    (
      (λ h. elim (f h) [ inl e ↦ inl e | inr e ↦ inr (f' e) ]),
      λ h. g (elim h [ inl e ↦ inl e | inr m ↦ inr (g' m) ]),
    )

nil_or_iff : (xs : List String) (b : Bool) → ((is_nil xs || b) ≡ true) ↔ ((xs ≡ []) ⊎ (b ≡ true))
nil_or_iff [] b = ((λ h. inl refl), λ h. refl)
nil_or_iff (x ∷ xs) b = ((λ h. inr h), λ h. elim h [ inl e ↦ cc | inr e ↦ e ])

-- A directory is allowed where there is no list of roots, or it lies under one of them.
pub inside_iff :
    (p : Platform) (host : Host) (repo_root current : FilePath) (policy : Fields)
    → let roots = string_set p (get policy "allowed_roots") in
      (in_allowed_roots p host repo_root current policy ≡ true) ↔ (
        (roots ≡ [])
        ⊎ ((root : String) × Member root roots
            × IsUnder (host.resolve (resolve_under p host repo_root root)) (host.resolve current)))
unfolding in_allowed_roots is_inside
inside_iff p host repo_root current policy =
    let roots = string_set p (get policy "allowed_roots") in
    let place : String → FilePath = λ root. host.resolve (resolve_under p host repo_root root) in
    let (f, g) =
      nil_or_iff roots (any (λ root. is_relative_to (host.resolve current) (place root)) roots) in
    let (f', g') = any_iff (λ root. is_relative_to (host.resolve current) (place root)) roots in
    (
      (λ h. elim (f h) [
        | inl e ↦ inl e
        | inr e ↦
            let (root, m, u) = f' e in
            inr (root, m, (is_relative_to-IsUnder_iff (host.resolve current) (place root)).0 u)
      ]),
      λ h. g (elim h [
        | inl e ↦ inl e
        | inr (root, m, u) ↦
            inr (g' (root, m, (is_relative_to-IsUnder_iff (host.resolve current) (place root)).1 u))
      ]),
    )
