-- ===== src/Retention/Safety.antt =====
-- When `apply_retention_plan` of lifecycle.py deletes nothing.
use workspace_governance_con.Prelude.{
  ℕ, ◌≡◌, refl, ◌↔◌, ◌⊎◌, ◌≢◌, true, false, Option, none, some, List, [], ◌∷◌, String, Bool-cases,
  inl, inr, if◌then◌else◌,
}
use mathlib.Core.Path.{subst}
use workspace_governance_con.Platform.{Platform}
use workspace_governance_con.Retention.Kept.{
  IsKept, compact_if_required-IsKept, append_ledger_event-IsKept,
}
use workspace_governance_con.Retention.Disk.{Disk, Host}
use workspace_governance_con.Retention.Model.{Result, ok, err, RetentionPlan}
use workspace_governance_con.Retention.Plan.{Places, build_retention_plan}
use workspace_governance_con.Retention.Effects.{success, failure, Problem, ValidationArtifactRef}
use workspace_governance_con.Retention.Apply.{
  Applied, refused, append_failed, applied, RetentionApplyResult, apply_retention_plan, apply_plan,
  finish, ended, compact_if_required, is_nil,
}

-- What a result shows of the disk before and after it: it is a success exactly when it collected no
-- error and a failure exactly when it collected one, and where a required compaction has no export, it
-- failed, reports no deletion, and every file of the disk is still there.
abbrev pub IsClosed : Disk → RetentionApplyResult → Disk → Type 0
IsClosed before r after =
    ((r.outcome ≡ success) ↔ (r.errors ≡ []))
    × ((r.outcome ≡ failure) ↔ (r.errors ≢ []))
    × ((r.plan.ledger_compaction.action_required ≡ false)
        ⊎ ((r.ledger_export_ref ≢ none)
            ⊎ ((r.deleted_artifacts ≡ [])
                × (r.deleted_receipts ≡ [])
                × (r.outcome ≡ failure)
                × IsKept before after)))

Closed : Disk → Applied → Type 0
Closed before (refused e) = Unit
Closed before (append_failed after) = Unit
Closed before (applied r after) = IsClosed before r after

module _ (p : Platform) (host : Host) where
  outcome-success :
      (es : List Problem) → ((if is_nil es then success else failure) ≡ success) ↔ (es ≡ [])
  outcome-success [] = (λ h. refl, λ h. refl)
  outcome-success (e ∷ es) = (λ h. cc, λ h. cc)

  outcome-failure :
      (es : List Problem) → ((if is_nil es then success else failure) ≡ failure) ↔ (es ≢ [])
  outcome-failure [] = ((λ h. cc), λ h. absurd (h refl))
  outcome-failure (e ∷ es) = ((λ h. λ n. cc), λ h. refl)

  -- How an application ends, after the event is appended.
  ended-Closed :
      (before : Disk) (r : RetentionApplyResult) (o : Option Disk) (disk : Disk)
      → ((after : Disk) → o ≡ some after → IsClosed before r after)
      → Closed before (ended p host r o disk)
  unfolding ended Closed
  ended-Closed before r none disk h = tt
  ended-Closed before r (some after) disk h = h after refl

  no_problem :
      {P : Type 0} (plan : RetentionPlan) (ref : Option ValidationArtifactRef)
      → (plan.ledger_compaction.action_required ≡ true → ref ≡ none → true ≡ false)
      → (plan.ledger_compaction.action_required ≡ false) ⊎ ((ref ≢ none) ⊎ P)
  no_problem plan ref h = elim (Bool-cases plan.ledger_compaction.action_required) [
    | inr e ↦ inl e
    | inl e ↦ inr (inl (λ n. absurd (let q = h e n in cc)))
  ]

  finish-Closed :
      (before : Disk) (plan : RetentionPlan) (actor : String) (now : ℕ) (problems : List Problem)
      (ref : Option ValidationArtifactRef) (disk : Disk)
      → IsKept before disk
      → (plan.ledger_compaction.action_required ≡ true → ref ≡ none → is_nil problems ≡ false)
      → Closed before (finish p host plan actor now problems ref disk)
  unfolding finish
  finish-Closed before plan actor now [] ref disk kept h =
      ended-Closed before _ _ _
        (λ after e. (outcome-success _, outcome-failure _, no_problem plan ref h))
  finish-Closed before plan actor now (x ∷ xs) ref disk kept h =
      ended-Closed before _ _ _ (λ after e. (
        ((λ q. cc), λ q. cc),
        ((λ q. λ n. cc), λ q. refl),
        inr (
            inr (
              refl,
              refl,
              refl,
              λ path here.
                  append_ledger_event-IsKept host p plan.ledger_path _ now disk after e path
                    (kept path here),
            )),
      ))

  compact_if_required-problem :
      (plan : RetentionPlan) (now : ℕ) (disk : Disk)
      → plan.ledger_compaction.action_required ≡ true
      → (compact_if_required p host plan now disk).1.0 ≡ none
      → is_nil (compact_if_required p host plan now disk).0 ≡ false
  unfolding compact_if_required
  compact_if_required-problem plan now disk required = rw required (λ e. rw e refl)

  apply_plan-Closed :
      (actor : String) (now : ℕ) (disk : Disk) (o : Result RetentionPlan)
      → Closed disk (apply_plan p host true actor now o disk)
  unfolding apply_plan Closed
  apply_plan-Closed actor now disk (err e) = tt
  apply_plan-Closed actor now disk (ok plan) =
      let c = compact_if_required p host plan now disk in
      finish-Closed disk plan actor now c.0 c.1.0 c.1.1
        (compact_if_required-IsKept host p plan now disk)
        (compact_if_required-problem plan now disk)

  -- A confirmed application that gives a result gives a success exactly when it collected no error, and a
  -- failure exactly when it collected one. Where it required a compaction and has no export of it, it is
  -- a failure that reports no deletion, and every file of the disk before is on the disk after.
  pub apply_retention_plan-IsClosed :
      (places : Places) (actor profile : String) (now : ℕ) (disk : Disk) (r : RetentionApplyResult)
      (after : Disk)
      → apply_retention_plan p host places actor true profile now disk ≡ applied r after
      → IsClosed disk r after
  unfolding apply_retention_plan Closed
  apply_retention_plan-IsClosed places actor profile now disk r after e =
      subst (Closed disk) e
        (apply_plan-Closed actor now disk (build_retention_plan p host places profile now disk))
