-- ===== src/Plan/Build.antt =====
-- `build_validation_plan` of validation_planning.py: the decision over the rounds of the loop.
use workspace_governance_con.Prelude.{
  ℕ, zero, suc, Bool, true, false, not, ◌||◌, Option, none, some, List, [], ◌∷◌, ◌++◌, map, String,
  str_eq, any, filter, length, sorted_set, if◌then◌else◌,
}
use workspace_governance_con.Prelude.Int.{pos}
use workspace_governance_con.Prelude.Text.{lower, text_le, join}
use workspace_governance_con.Prelude.Sorting.{sort_by}
use workspace_governance_con.Prelude.Result.{Result, ok, err, ◌>>=◌}
use workspace_governance_con.Value.{Value, Fields, int, text, dict, get, or_else}
use workspace_governance_con.Platform.{Platform, str}
use workspace_governance_con.Policy.Read.{parse_timestamp}
use workspace_governance_con.Budget.Decide.{is_nil, evaluate_validation_plan_budget}
use workspace_governance_con.Manifest.Validate.{validate_governance_manifest}
use workspace_governance_con.Plan.Model.{
  Tier, tier_text, coerce_tier, is_full_surface, is_release, ExecutionMode, skip_fresh_receipt, run,
  ValidationTarget, State, waived, selected, stale, failed, external_owner_required,
  ValidationCheckStatus, ValidationCheck, Outcome, planned, no_matching_validators, ValidationPlan,
  PlanError, manifest_is_invalid, invalid_timestamp,
}
use workspace_governance_con.Plan.Targets.{
  normalize_validation_target, scope_sets_match, entries_of,
}
use workspace_governance_con.Plan.Scopes.{stripped, target_scope_candidates, declared_scope_ids}
use workspace_governance_con.Plan.Rounds.{
  Request, Rounds, checks_in, suppressed_in, status_of, rounds_of, validators_of,
}
use Prim.Native.String.{◌++◌ as ◌<>◌}

unfoldable pub is_skipped : ExecutionMode → Bool
is_skipped skip_fresh_receipt = true
is_skipped run = false

unfoldable pub is_waived : State → Bool
is_waived waived = true
is_waived _ = false

-- `status.status in {"selected", "stale", "failed", "external-owner-required"}`
unfoldable pub is_active : State → Bool
is_active selected = true
is_active stale = true
is_active failed = true
is_active external_owner_required = true
is_active _ = false

-- `_replace_status` of a status that is active.
unfoldable pub block_active : String → ValidationCheckStatus → ValidationCheckStatus
unfolding is_active
block_active reason status =
    if is_active status.status
    then record status { status = State.blocked; reason = reason }
    else status

unfoldable pub outcome_of :
    List String → List ValidationCheck → List ValidationCheckStatus → Outcome
unfolding is_waived
outcome_of blocked_reasons checks statuses =
    if not (is_nil blocked_reasons)
    then Outcome.blocked
    else if not (is_nil checks) || any (λ s. is_waived s.status) statuses
    then planned
    else no_matching_validators

unfoldable pub requires_review : Outcome → Bool
requires_review planned = false
requires_review _ = true

unfoldable pub final_statuses :
    List String → List ValidationCheckStatus → List ValidationCheckStatus
unfolding block_active join
final_statuses [] statuses = statuses
final_statuses blocked_reasons statuses = map (block_active (join "; " blocked_reasons)) statuses

module _ (p : Platform) where
  -- The authority references that are not current, by their ids.
  unfoldable pub stale_authorities : List Fields → List String
  unfolding str get stripped or_else lower
  stale_authorities [] = []
  stale_authorities (authority_ref ∷ rest) =
      let later = stale_authorities rest in
      if str_eq
        (lower (stripped p (or_else (get authority_ref "freshness_status") (text "unknown"))))
        "current"
      then later
      else str p (get authority_ref "authority_id") ∷ later

  -- `_blocked_reasons`
  unfoldable pub blocked_reasons : Fields → Tier → List String
  unfolding stale_authorities entries_of get join
  blocked_reasons manifest requested =
      let stale_ids = stale_authorities (entries_of (get manifest "authority_refs")) in
      if not (is_release requested)
      then []
      else if is_nil stale_ids
      then []
      else ("release tier requires current authority refs: "
          <> join ", " (sort_by text_le stale_ids))
        ∷ []

  abbrev decimal : ℕ → String
  unfolding str
  decimal n = str p (int (pos n))

  reuse_reasons : ℕ → List String
  unfolding str
  reuse_reasons zero = []
  reuse_reasons (suc n) = ("fresh_receipts_applied=" <> decimal (suc n)) ∷ []

  -- The other scopes of a changed-file target.
  expansion : ValidationTarget → List String → List String
  unfolding join
  expansion target [] = []
  expansion target scopes =
      if str_eq target.target_type "changed-file"
      then ("changed-file target expands to " <> join ", " scopes) ∷ []
      else []

  -- `_decision_reasons`
  unfoldable pub decision_reasons : Request → List ValidationCheck → Bool → List String
  unfolding str reuse_reasons expansion sorted_set is_skipped
  decision_reasons r checks target_declared =
      ("target=" <> r.target.scope)
        ∷ ("tier=" <> tier_text r.tier)
        ∷ ("selected_checks=" <> decimal (length checks))
        ∷ reuse_reasons (length (filter (λ c. is_skipped c.execution_mode) checks))
      ++ (expansion r.target (sorted_set (filter (λ s. not (str_eq s r.target.scope)) r.candidates))
          ++ ((if target_declared
                then []
                else "target scope is not declared by the manifest graph" ∷ [])
              ++ (if is_full_surface r.tier
                  then "full-surface tier includes every manifest-declared validator" ∷ []
                  else [])))

  -- The plan, once the loop is done.
  unfoldable pub plan_of : Request → Bool → Rounds → ValidationPlan
  unfolding checks_in suppressed_in status_of blocked_reasons decision_reasons outcome_of
      requires_review final_statuses evaluate_validation_plan_budget get
  plan_of r target_declared rounds =
      let checks = checks_in rounds in
      let statuses = map (status_of p r) rounds in
      let blocking = blocked_reasons r.manifest r.tier in
      let outcome = outcome_of blocking checks statuses in
      record {
        check_statuses = final_statuses blocking statuses;
        checks = checks;
        decision = record {
          blocked_reasons = blocking;
          outcome = outcome;
          reasons = decision_reasons r checks target_declared;
          requires_operator_review = requires_review outcome;
          suppressed_validators = suppressed_in p rounds;
        };
        manifest_id = get r.manifest "manifest_id";
        performance_budget =
            evaluate_validation_plan_budget "developer" (pos (length checks)) (tier_text r.tier);
        target = r.target;
        tier = r.tier;
      }

  unfoldable pub planned_for : Request → Bool → Result PlanError ValidationPlan
  unfolding rounds_of validators_of plan_of
  planned_for r target_declared =
      rounds_of p r (validators_of p r.manifest) >>= λ rounds. ok (plan_of r target_declared rounds)

  abbrev accepted : Value → Result PlanError Fields
  unfolding validate_governance_manifest
  accepted (dict manifest) = elim (validate_governance_manifest p (dict manifest)) [
    | [] ↦ ok manifest
    | e ∷ es ↦ err (manifest_is_invalid (e ∷ es))
  ]
  accepted v = err (manifest_is_invalid (validate_governance_manifest p v))

  abbrev timestamp_or : Option ℕ → Result PlanError ℕ
  timestamp_or none = err invalid_timestamp
  timestamp_or (some t) = ok t

  -- `_coerce_now` of a text; the clock's time is given as its text.
  unfoldable pub coerce_now : Value → Result PlanError ℕ
  unfolding parse_timestamp
  coerce_now now = timestamp_or (parse_timestamp p now)

  unfoldable pub build_validation_plan :
      Value → String → String → List Fields → List Fields → Value → Result PlanError ValidationPlan
  unfolding validate_governance_manifest coerce_tier coerce_now normalize_validation_target
      declared_scope_ids target_scope_candidates scope_sets_match planned_for
  build_validation_plan manifest target_scope tier receipts waivers now = do
    fields ← accepted manifest
    requested ← coerce_tier tier
    planning_time ← coerce_now now
    target ← normalize_validation_target target_scope
    declared ← declared_scope_ids p fields
    candidates ← target_scope_candidates p fields target
    planned_for
        (record {
          manifest = fields;
          target = target;
          candidates = candidates;
          tier = requested;
          receipts = receipts;
          waivers = waivers;
          now = planning_time;
        })
        (scope_sets_match declared candidates || str_eq target.target_type "workspace")

  -- `validation_target_scope_candidates`
  unfoldable pub validation_target_scope_candidates :
      Value → String → Result PlanError (List String)
  unfolding validate_governance_manifest normalize_validation_target target_scope_candidates
      sorted_set
  validation_target_scope_candidates manifest target_scope = do
    fields ← accepted manifest
    target ← normalize_validation_target target_scope
    candidates ← target_scope_candidates p fields target
    ok (sorted_set candidates)
