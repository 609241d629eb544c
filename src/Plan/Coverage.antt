-- ===== src/Plan/Coverage.antt =====
-- What a plan of `build_validation_plan` of validation_planning.py says of all validators together.
use workspace_governance_con.Prelude.{
  ℕ, suc, ◌+◌, ◌≡◌, ◌≢◌, refl, ap, sym, ◌∙◌, inl, inr, Bool, true, false, not, List, [], ◌∷◌, map,
  String, All, Bool-cases, length, arith, if◌then◌else◌,
}
use mathlib.Core.Path.{subst}
use mathlib.Core.List.{Perm}
use workspace_governance_con.Prelude.Text.{text_le}
use workspace_governance_con.Prelude.Sorting.{length-sort_by}
use workspace_governance_con.Prelude.Ascending.{
  IsAscending, text_le_total, sort_by-IsAscending, sort_by-perm,
}
use workspace_governance_con.Budget.Decide.{is_nil}
use workspace_governance_con.Prelude.Result.{ok, ok-injective, bound}
use workspace_governance_con.Value.{Fields, get}
use workspace_governance_con.Platform.{Platform, str}
use workspace_governance_con.Plan.Model.{
  Tier, is_release, ValidationCheckStatus, ValidationPlan, Outcome,
}
use workspace_governance_con.Plan.Targets.{entries_of}
use workspace_governance_con.Plan.Scopes.{text_at}
use workspace_governance_con.Plan.Checks.{check_status, selected_check_status}
use workspace_governance_con.Plan.Rounds.{
  Round, chosen, left_out, by_waiver, Request, Rounds, checks_in, suppressed_in, status_of,
  rounds_of, round_of, validators_of, by_validator_id,
}
use workspace_governance_con.Plan.Build.{
  plan_of, planned_for, is_active, block_active, final_statuses, blocked_reasons, stale_authorities,
  outcome_of, requires_review,
}
use workspace_governance_con.Plan.Partition.{Explains, round_of-Explains}

-- The ids of statuses.
abbrev pub ids_of : List ValidationCheckStatus → List String
ids_of [] = []
ids_of (s ∷ ss) = s.validator_id ∷ ids_of ss

blocked-ids :
    (reason : String) (ss : List ValidationCheckStatus)
    → ids_of (map (block_active reason) ss) ≡ ids_of ss
unfolding block_active
blocked-ids reason [] = refl
blocked-ids reason (s ∷ ss) = elim (Bool-cases (is_active s.status)) [
  | inl e ↦ rw e (ap (◌∷◌ s.validator_id) (blocked-ids reason ss))
  | inr e ↦ rw e (ap (◌∷◌ s.validator_id) (blocked-ids reason ss))
]

final-ids :
    (reasons : List String) (ss : List ValidationCheckStatus)
    → ids_of (final_statuses reasons ss) ≡ ids_of ss
unfolding final_statuses
final-ids [] ss = refl
final-ids (r ∷ rs) ss = blocked-ids _ ss

-- A state that a blocked plan does not have.
blocked-inactive :
    (reason : String) (ss : List ValidationCheckStatus)
    → All (λ s. is_active s.status ≡ false) (map (block_active reason) ss)
unfolding block_active is_active
blocked-inactive reason [] = tt
blocked-inactive reason (s ∷ ss) = elim (Bool-cases (is_active s.status)) [
  | inl e ↦ rw e ((refl, blocked-inactive reason ss))
  | inr e ↦ rw e ((e, blocked-inactive reason ss))
]

-- How many rounds end in a waiver.
abbrev pub waivers_in : Rounds → ℕ
waivers_in [] = 0
waivers_in ((_, by_waiver _) ∷ rs) = suc (waivers_in rs)
waivers_in (_ ∷ rs) = waivers_in rs

-- A plan that waits for an operator: no status of it asks to run.
abbrev pub IsBlocked : ValidationPlan → Type 0
IsBlocked plan =
    (plan.decision.outcome ≡ Outcome.blocked)
    × (plan.decision.requires_operator_review ≡ true)
    × All (λ s. is_active s.status ≡ false) plan.check_statuses

reason_of :
    (b : Bool) (reason : String)
    → b ≡ true
    → (ids : List String) → ids ≢ []
    → (x : String) × ((if not b then [] else if is_nil ids then [] else reason ∷ []) ≡ x ∷ [])
reason_of b reason e [] h = absurd (h refl)
reason_of b reason e (i ∷ is) h = (reason, rw e refl)

module _ (p : Platform) where
  status-id :
      (r : Request) (v : Fields) (tier : Tier) (round : Round)
      → Explains p r v tier round
      → (status_of p r (v, round)).validator_id ≡ text_at p v "validator_id"
  unfolding status_of selected_check_status check_status
  status-id r v tier (chosen check) h = h.1.1.1.1
  status-id r v tier (left_out reason) h = refl
  status-id r v tier (by_waiver w) h = refl

  statuses-ids :
      (r : Request) (vs : List Fields) (rounds : Rounds)
      → rounds_of p r vs ≡ ok rounds
      → ids_of (map (status_of p r) rounds) ≡ map (λ v. text_at p v "validator_id") vs
  unfolding rounds_of
  statuses-ids r [] rounds h =
      ap (λ e. ids_of (map (status_of p r) e)) (sym (ok-injective [] rounds h))
  statuses-ids r (v ∷ vs) rounds h =
      let (round, er, h1) = bound (round_of p r v) _ rounds h in
      let (rest, es, h2) = bound (rounds_of p r vs) _ rounds h1 in
      let (tier, et, why) = round_of-Explains p r v round er in
      ap (λ e. ids_of (map (status_of p r) e)) (sym (ok-injective ((v, round) ∷ rest) rounds h2))
      ∙ (ap (λ i. i ∷ ids_of (map (status_of p r) rest)) (status-id r v tier round why)
          ∙ ap (◌∷◌ (text_at p v "validator_id")) (statuses-ids r vs rest es))

  -- The statuses of a plan are those of the validators of the manifest, one for each, with the ids of the
  -- validators; and they are in the order of the declared ids, each at most the next.
  pub planned_for-ids :
      (r : Request) (declared : Bool) (plan : ValidationPlan)
      → planned_for p r declared ≡ ok plan
      → (vs : List Fields) × (ids_of plan.check_statuses ≡ map (λ v. text_at p v "validator_id") vs)
        × Perm vs (entries_of (get r.manifest "validators"))
        × IsAscending
            (λ a b. text_le (str p (get a "validator_id")) (str p (get b "validator_id")))
            vs
  unfolding planned_for plan_of validators_of by_validator_id
  planned_for-ids r declared plan h =
      let vs = validators_of p r.manifest in
      let entries = entries_of (get r.manifest "validators") in
      let (rounds, er, h1) = bound (rounds_of p r vs) _ plan h in
      (
        vs,
        ap (λ q. ids_of q.check_statuses) (sym (ok-injective (plan_of p r declared rounds) plan h1))
            ∙ (final-ids (blocked_reasons p r.manifest r.tier) (map (status_of p r) rounds)
                ∙ statuses-ids r vs rounds er),
        sort_by-perm (by_validator_id p) entries,
        sort_by-IsAscending (by_validator_id p)
            (λ a b. text_le_total (str p (get a "validator_id")) (str p (get b "validator_id")))
            entries,
      )

  rounds-length :
      (r : Request) (vs : List Fields) (rounds : Rounds)
      → rounds_of p r vs ≡ ok rounds
      → length rounds ≡ length vs
  unfolding rounds_of
  rounds-length r [] rounds h = ap length (sym (ok-injective [] rounds h))
  rounds-length r (v ∷ vs) rounds h =
      let (round, er, h1) = bound (round_of p r v) _ rounds h in
      let (rest, es, h2) = bound (rounds_of p r vs) _ rounds h1 in
      ap length (sym (ok-injective ((v, round) ∷ rest) rounds h2))
      ∙ ap suc (rounds-length r vs rest es)

  -- Every round leaves a check, a suppressed validator or a waiver.
  rounds-count :
      (rounds : Rounds)
      → length (checks_in rounds) + (length (suppressed_in p rounds) + waivers_in rounds)
        ≡ length rounds
  unfolding checks_in suppressed_in
  rounds-count [] = refl
  rounds-count ((v, chosen check) ∷ rs) = omega (arith, rounds-count rs)
  rounds-count ((v, left_out reason) ∷ rs) = omega (arith, rounds-count rs)
  rounds-count ((v, by_waiver w) ∷ rs) = omega (arith, rounds-count rs)

  release-reason :
      (manifest : Fields) (tier : Tier)
      → is_release tier ≡ true
      → stale_authorities p (entries_of (get manifest "authority_refs")) ≢ []
      → (reason : String) × (blocked_reasons p manifest tier ≡ reason ∷ [])
  unfolding blocked_reasons
  release-reason manifest tier is_rel stale =
      reason_of _ _ is_rel (stale_authorities p (entries_of (get manifest "authority_refs"))) stale

  plan_of-IsBlocked :
      (r : Request) (declared : Bool) (rounds : Rounds) (reason : String)
      → blocked_reasons p r.manifest r.tier ≡ reason ∷ []
      → IsBlocked (plan_of p r declared rounds)
  unfolding plan_of outcome_of requires_review final_statuses
  plan_of-IsBlocked r declared rounds reason e =
      rw e ((refl, refl, blocked-inactive _ (map (status_of p r) rounds)))

  -- Without a current authority, a release is blocked and no status asks to run.
  pub planned_for-IsBlocked :
      (r : Request) (declared : Bool) (plan : ValidationPlan)
      → is_release r.tier ≡ true
      → stale_authorities p (entries_of (get r.manifest "authority_refs")) ≢ []
      → planned_for p r declared ≡ ok plan
      → IsBlocked plan
  unfolding planned_for
  planned_for-IsBlocked r declared plan is_rel stale h =
      let (rounds, er, h1) =
        bound (rounds_of p r (validators_of p r.manifest)) (λ rs. ok (plan_of p r declared rs)) plan
          h in
      let (reason, e) = release-reason r.manifest r.tier is_rel stale in
      subst IsBlocked (ok-injective (plan_of p r declared rounds) plan h1)
        (plan_of-IsBlocked r declared rounds reason e)

  -- A plan accounts for each validator: as a check, a suppressed validator or a waiver.
  pub planned_for-count :
      (r : Request) (declared : Bool) (plan : ValidationPlan)
      → planned_for p r declared ≡ ok plan
      → (rounds : Rounds) × (rounds_of p r (validators_of p r.manifest) ≡ ok rounds)
        × (length plan.checks + (length plan.decision.suppressed_validators + waivers_in rounds)
            ≡ length (entries_of (get r.manifest "validators")))
  unfolding planned_for plan_of validators_of
  planned_for-count r declared plan h =
      let (rounds, er, h1) =
        bound (rounds_of p r (validators_of p r.manifest)) (λ rs. ok (plan_of p r declared rs)) plan
          h in
      subst
        (λ q.
          (rounds : Rounds) × (rounds_of p r (validators_of p r.manifest) ≡ ok rounds)
          × (length q.checks + (length q.decision.suppressed_validators + waivers_in rounds)
              ≡ length (entries_of (get r.manifest "validators"))))
        (ok-injective (plan_of p r declared rounds) plan h1)
        (
          rounds,
          er,
          rounds-count rounds
              ∙ (rounds-length r (validators_of p r.manifest) rounds er
                  ∙ length-sort_by (by_validator_id p) (entries_of (get r.manifest "validators"))),
        )
