-- ===== src/Plan/Checks.antt =====
-- One validator of a plan, of validation_planning.py: its tier, its scope and its check.
use workspace_governance_con.Prelude.{
  ℕ, Bool, true, not, ◌||◌, leb, Option, none, some, List, [], ◌∷◌, String, str_eq, any, filter,
  contains, lookup, sorted_set, if◌then◌else◌,
}
use workspace_governance_con.Prelude.Text.{lower, first_characters, text_le}
use workspace_governance_con.Prelude.Sorting.{sort_by}
use workspace_governance_con.Prelude.Result.{Result, ok, err, ◌>>=◌}
use workspace_governance_con.Value.{Fields, text, get, find, or_else, truthy}
use workspace_governance_con.Platform.{Platform, str}
use workspace_governance_con.Plan.Model.{
  Tier, tier_order, tier_text, coerce_tier, is_full_surface, CheckType, command, contract,
  projection, ExecutionMode, run, skip_fresh_receipt, ValidationTarget, State, selected, stale,
  failed, external_owner_required, ValidationCheckStatus, CacheDecision, not_allowed, reuse,
  rejected, ValidationCheck, PlanError, unknown_check_type,
}
use workspace_governance_con.Plan.Targets.{scope_matches, scope_sets_match}
use workspace_governance_con.Plan.Scopes.{stripped, text_at, validator_scopes}
use workspace_governance_con.Plan.Template.{render_validator_command}
use workspace_governance_con.Plan.Reuse.{receipt_reuse_decision}
use workspace_governance_con.Plan.Policy.{validator_execution_policy}
use Prim.Native.String.{◌++◌ as ◌<>◌}

-- `_tier_included`
unfoldable pub tier_included : Tier → Tier → Bool
tier_included validator_tier requested = leb (tier_order validator_tier) (tier_order requested)

-- `_scope_included`; `candidates` is the value of `_target_scope_candidates(manifest, target)`.
unfoldable pub scope_included : List String → Tier → List String → Bool
unfolding scope_sets_match contains
scope_included declared_scopes requested candidates =
    is_full_surface requested
    || scope_sets_match declared_scopes candidates
    || contains "workspace" declared_scopes

abbrev check_types : List (String × CheckType)
check_types = ("command", command) ∷ ("contract", contract) ∷ ("projection", projection) ∷ []

abbrev known_type : String → Option CheckType → Result PlanError CheckType
known_type value none = err (unknown_check_type value)
known_type value (some t) = ok t

-- `bool(validator.get("required", True))`
unfoldable pub is_required : Fields → Bool
unfolding find truthy
is_required validator = elim (find validator "required") [ none ↦ true | some v ↦ truthy v ]

abbrev matching_reason : List String → Bool → ValidationTarget → Tier → Tier → String
matching_reason (s ∷ _) workspace target tier requested =
    if str_eq target.target_type "changed-file"
    then "validator declares scope "
      <> (s <> (" matching " <> (target.scope <> (" at " <> (tier_text tier <> " tier")))))
    else "validator declares scope for "
      <> (target.scope <> (" at " <> (tier_text tier <> " tier")))
matching_reason [] workspace target tier requested =
    if workspace
    then "validator declares scope for "
      <> (target.scope <> (" at " <> (tier_text tier <> " tier")))
    else if is_full_surface requested
    then tier_text requested <> " tier includes every manifest-declared validator"
    else "validator selected for " <> target.scope

-- `_selection_reason`
unfoldable pub selection_reason :
    List String → ValidationTarget → List String → Tier → Tier → String
unfolding sorted_set scope_matches contains
selection_reason declared_scopes target candidates tier requested =
    matching_reason
      (sorted_set (filter (λ declared. any (scope_matches declared) candidates) declared_scopes))
      (contains "workspace" declared_scopes) target tier requested

unfoldable pub mode_of : CacheDecision → ExecutionMode
mode_of (reuse receipt_id seconds invalidate) = skip_fresh_receipt
mode_of _ = run

unfoldable pub reused_receipt : CacheDecision → Option String
reused_receipt (reuse receipt_id seconds invalidate) = some receipt_id
reused_receipt _ = none

abbrev pub reuse_text : String → String → String
reuse_text receipt_id scope = "fresh successful receipt " <> (receipt_id <> (" covers " <> scope))

abbrev reuse_reason_of : CacheDecision → String → Option String
reuse_reason_of (reuse receipt_id seconds invalidate) scope = some (reuse_text receipt_id scope)
reuse_reason_of _ scope = none

-- `cache_decision["reason"]`
unfoldable pub cache_reason : CacheDecision → String → String
cache_reason not_allowed scope = "validator reuse_policy.safe_to_reuse is not true"
cache_reason (reuse receipt_id seconds invalidate) scope = reuse_text receipt_id scope
cache_reason (rejected none rs invalidate) scope = "no reusable receipt supplied"
cache_reason (rejected (some r) rs invalidate) scope = r.reason

-- `str(cache_decision.get("reason_code") or "")`
unfoldable pub reason_code : CacheDecision → String
reason_code not_allowed = ""
reason_code (reuse receipt_id seconds invalidate) = "fresh-receipt-reused"
reason_code (rejected none rs invalidate) = "no-reusable-receipt"
reason_code (rejected (some r) rs invalidate) = r.code

abbrev pub stale_codes : List String
stale_codes = "authority-digest-mismatch" ∷ "receipt-stale" ∷ []

-- The status of a check that is planned, by its reason code and whether another owner has it.
unfoldable pub selected_state : String → Bool → State
unfolding contains
selected_state code same_owner =
    if contains code stale_codes
    then stale
    else if str_eq code "receipt-failed"
    then failed
    else if not same_owner
    then external_owner_required
    else selected

module _ (p : Platform) where
  -- `_validator_tier`
  unfoldable pub validator_tier : Fields → Result PlanError Tier
  unfolding coerce_tier str or_else get
  validator_tier validator = coerce_tier (
      str p (
        or_else (or_else (get validator "validation_tier") (get validator "tier")) (text "scoped")))

  -- `_validator_check_type`
  unfoldable pub validator_check_type : Fields → Result PlanError CheckType
  unfolding stripped or_else get lookup lower
  validator_check_type validator =
      let value = lower (stripped p (or_else (get validator "check_type") (text "command"))) in
      known_type value (lookup value check_types)

  -- `_check_status`
  unfoldable pub check_status : Fields → State → String → ValidationCheckStatus
  unfolding text_at is_required
  check_status validator status reason = record {
    owner_repo = text_at p validator "owner_repo";
    reason = reason;
    required = is_required validator;
    status = status;
    validator_id = text_at p validator "validator_id";
  }

  -- `_selected_check_status`
  unfoldable pub selected_check_status :
      ValidationCheck → ValidationTarget → Fields → ValidationCheckStatus
  unfolding selected_state reason_code cache_reason text_at
  selected_check_status check target manifest = record {
    owner_repo = check.owner_repo;
    reason = cache_reason check.cache_decision target.scope;
    required = check.required;
    status =
        selected_state (reason_code check.cache_decision)
          (str_eq check.owner_repo (text_at p manifest "owner_repo"));
    validator_id = check.validator_id;
  }

  -- `_check_id`
  unfoldable pub check_id : String → String → Tier → String
  unfolding first_characters
  check_id validator_id target_scope tier =
      "check:"
      <> first_characters 16
          (p.sha256_hex (validator_id <> ("|" <> (target_scope <> ("|" <> tier_text tier)))))

  -- The record of a check, of the parts that may raise.
  unfoldable pub check_from :
      Fields
      → ValidationTarget
      → List String
      → Tier
      → Tier
      → CacheDecision × Option String
      → CheckType
      → String
      → ValidationCheck
  unfolding text_at check_id validator_execution_policy selection_reason validator_scopes
      is_required mode_of reused_receipt
  check_from validator target candidates tier requested decision check_type rendered = record {
    cache_decision = decision.0;
    check_id = check_id (text_at p validator "validator_id") target.scope requested;
    check_type = check_type;
    command = rendered;
    execution_mode = mode_of decision.0;
    execution_policy = validator_execution_policy p validator;
    owner_repo = text_at p validator "owner_repo";
    receipt_digest = decision.1;
    receipt_id = reused_receipt decision.0;
    required = is_required validator;
    reuse_reason = reuse_reason_of decision.0 target.scope;
    scopes = sort_by text_le (validator_scopes p validator);
    tier = tier;
    validator_id = text_at p validator "validator_id";
    reason = selection_reason (validator_scopes p validator) target candidates tier requested;
  }

  -- `_validation_check`
  unfoldable pub validation_check :
      Fields
      → ValidationTarget
      → List String
      → Tier
      → Tier
      → Fields
      → List Fields
      → ℕ
      → Result PlanError ValidationCheck
  unfolding text_at receipt_reuse_decision validator_check_type render_validator_command check_from
  validation_check validator target candidates tier requested manifest receipts now = do
    decision ← receipt_reuse_decision p validator target candidates requested receipts now manifest
    check_type ← validator_check_type validator
    rendered ← render_validator_command p (text_at p validator "command") target
    ok (check_from validator target candidates tier requested decision check_type rendered)
