-- ===== src/Retention/Deletions.antt =====
-- What `_delete_candidates` of lifecycle.py takes from the disk.
use workspace_governance_con.Prelude.{
  ◌≡◌, refl, sym, ap, ◌∙◌, Bool, true, false, not, ◌||◌, ◌&&◌, List, [], ◌∷◌, map, arith, filter,
  any, if◌then◌else◌,
}
use workspace_governance_con.Retention.Disk.{File, Disk, Host, at, unlink}
use workspace_governance_con.Retention.Model.{RetentionCandidate}
use workspace_governance_con.Retention.Effects.{
  Deletion, Problem, unsafe_candidate, delete_failed, delete_candidates,
}
use mathlib.Core.Path.{ap₂}

filter-or {ℓ} :
    {A : Type ℓ} (p q : A → Bool) (xs : List A)
    → filter (λ x. not (q x)) (filter (λ x. not (p x)) xs) ≡ filter (λ x. not (p x || q x)) xs
filter-or p q [] = refl
filter-or p q (x ∷ xs) = ground (arith, filter-or p q xs)

filter-none {ℓ} : {A : Type ℓ} (xs : List A) → filter (λ x. true) xs ≡ xs
filter-none [] = refl
filter-none (x ∷ xs) = rw (filter-none xs)

module _ (host : Host) where
  -- Whether a file stands at the path of one of the candidates.
  abbrev pub named : List RetentionCandidate → File → Bool
  named cs f = any (λ c. at host c.path f) cs

  -- A candidate that a deletion takes: marked as safe, and the system lets its path go.
  abbrev pub deletable : RetentionCandidate → Bool
  deletable c = c.safe_to_apply && host.unlinks c.path

  -- What a candidate that is not taken is reported with.
  abbrev pub own_problem : RetentionCandidate → Problem
  own_problem c = if c.safe_to_apply then delete_failed c.relative_path else unsafe_candidate c.path

  -- One round: a candidate that is not safe, or is not unlinked, is skipped with its error.
  abbrev round : Bool → Bool → RetentionCandidate → Deletion → Deletion → Deletion
  round safe unlinks c skipped gone =
      if not safe
      then record skipped { problems = unsafe_candidate c.path ∷ skipped.problems }
      else if unlinks
      then record gone { deleted = c ∷ gone.deleted }
      else record skipped { problems = delete_failed c.relative_path ∷ skipped.problems }

  -- What a deletion of candidates from a disk takes, reports and leaves.
  abbrev pub IsExact : List RetentionCandidate → List RetentionCandidate → Disk → Deletion → Type 0
  IsExact taken others disk d =
      (d.deleted ≡ taken)
      × (d.problems ≡ map own_problem others)
      × (d.disk ≡ filter (λ f. not (named taken f)) disk)

  round-IsExact :
      (safe unlinks : Bool) (c : RetentionCandidate) (skipped gone : Deletion)
      (taken others : List RetentionCandidate) (disk : Disk)
      → own_problem c ≡ (if safe then delete_failed c.relative_path else unsafe_candidate c.path)
      → IsExact taken others disk skipped
      → IsExact taken others (unlink host c.path disk) gone
      → IsExact
          (if safe && unlinks then c ∷ taken else taken)
          (if not (safe && unlinks) then c ∷ others else others)
          disk
          (round safe unlinks c skipped gone)
  unfolding unlink
  round-IsExact false unlinks c skipped gone taken others disk own (a, b, n) h =
      (a, ap₂ ◌∷◌ (sym own) b, n)
  round-IsExact true false c skipped gone taken others disk own (a, b, n) h =
      (a, ap₂ ◌∷◌ (sym own) b, n)
  round-IsExact true true c skipped gone taken others disk own h (a, b, n) =
      (ap (◌∷◌ c) a, b, n ∙ filter-or (at host c.path) (named taken) disk)

  -- Exactly the candidates that are safe and can be unlinked are deleted, in their order; each other
  -- candidate is reported, in their order, with its own error: its path where it is not safe, its
  -- relative path where it cannot be unlinked. The disk afterwards is the disk before without the files
  -- at the paths of the deleted candidates.
  pub delete_candidates-exact :
      (cs : List RetentionCandidate) (disk : Disk)
      → let d = delete_candidates host cs disk in
        (d.deleted ≡ filter deletable cs)
        × (d.problems ≡ map own_problem (filter (λ c. not (deletable c)) cs))
        × (d.disk ≡ filter (λ f. not (named (filter deletable cs) f)) disk)
  unfolding delete_candidates unlink
  delete_candidates-exact [] disk = (refl, refl, rw filter-none)
  delete_candidates-exact (c ∷ cs) disk =
      round-IsExact c.safe_to_apply (host.unlinks c.path) c (delete_candidates host cs disk)
        (delete_candidates host cs (unlink host c.path disk)) (filter deletable cs)
        (filter (λ c. not (deletable c)) cs) disk refl (delete_candidates-exact cs disk)
        (delete_candidates-exact cs (unlink host c.path disk))
