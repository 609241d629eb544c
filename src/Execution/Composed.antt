-- ===== src/Execution/Composed.antt =====
-- Planning and execution together: a release that is planned as blocked and then executed.
use workspace_governance_con.Prelude.{◌≡◌, ◌≢◌, refl, ap, Bool, true, []}
use workspace_governance_con.Value.{get}
use workspace_governance_con.Prelude.Result.{ok}
use workspace_governance_con.Platform.{Platform}
use workspace_governance_con.Plan.Model.{Outcome, ValidationPlan, is_release}
use workspace_governance_con.Plan.Targets.{entries_of}
use workspace_governance_con.Plan.Rounds.{Request}
use workspace_governance_con.Plan.Build.{planned_for, stale_authorities}
use workspace_governance_con.Plan.Coverage.{planned_for-IsBlocked}
use workspace_governance_con.Execution.Run.{Machine, check_results}
use workspace_governance_con.Execution.Outcome.{receipt_outcome, was_blocked}

module _ (p : Platform) (m : Machine) where
  check_results-nil :
      (plan : ValidationPlan)
      → plan.decision.outcome ≡ Outcome.blocked
      → check_results p m plan ≡ []
  unfolding check_results
  check_results-nil plan e = rw e refl

  receipt_outcome-was_blocked :
      (plan : ValidationPlan)
      → plan.decision.outcome ≡ Outcome.blocked
      → receipt_outcome plan.decision.outcome (check_results p m plan) ≡ was_blocked
  unfolding receipt_outcome
  receipt_outcome-was_blocked plan e = ap (λ o. receipt_outcome o (check_results p m plan)) e

  -- Executing the plan of a release whose authority references are not all current runs no check, and
  -- its receipt is blocked.
  pub check_results-stale :
      (r : Request) (declared : Bool) (plan : ValidationPlan)
      → is_release r.tier ≡ true
      → stale_authorities p (entries_of (get r.manifest "authority_refs")) ≢ []
      → planned_for p r declared ≡ ok plan
      → (check_results p m plan ≡ [])
        × (receipt_outcome plan.decision.outcome (check_results p m plan) ≡ was_blocked)
  check_results-stale r declared plan is_rel stale h =
      let blocked = (planned_for-IsBlocked p r declared plan is_rel stale h).0 in
      (check_results-nil plan blocked, receipt_outcome-was_blocked plan blocked)
