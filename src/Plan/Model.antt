-- ===== src/Plan/Model.antt =====
-- The data of validation_planning.py: tiers, targets, checks, statuses and the plan.
use workspace_governance_con.Prelude.{
  ℕ, Bool, true, false, Option, none, some, List, [], ◌∷◌, String, lookup,
}
use workspace_governance_con.Prelude.Text.{strip, lower}
use workspace_governance_con.Prelude.Result.{Result, ok, err}
use workspace_governance_con.Value.{Value, Fields}
use workspace_governance_con.Budget.Decide.{BudgetDecision}
use workspace_governance_con.Manifest.Sections.{ManifestError}

-- `ValidationTier`
pub data Tier : Type 0 where
  smoke scoped full release : Tier

-- `VALIDATION_TIER_ORDER`
abbrev pub tier_order : Tier → ℕ
tier_order smoke = 10
tier_order scoped = 20
tier_order full = 30
tier_order release = 40

abbrev pub tier_text : Tier → String
tier_text smoke = "smoke"
tier_text scoped = "scoped"
tier_text full = "full"
tier_text release = "release"

-- `ValidationCheckType`
pub data CheckType : Type 0 where
  command contract projection : CheckType

-- `ValidationExecutionMode`
pub data ExecutionMode : Type 0 where
  run skip_fresh_receipt : ExecutionMode

pub record ValidationTarget : Type 0 where
  pub scope : String
  pub target_type : String
  pub target_id : String

-- The values of `status` in a `ValidationCheckStatus`.
pub data State : Type 0 where
  suppressed waived selected stale failed external_owner_required blocked : State

pub record ValidationCheckStatus : Type 0 where
  pub owner_repo : String
  pub reason : String
  pub required : Bool
  pub status : State
  pub validator_id : String

pub record SuppressedValidator : Type 0 where
  pub validator_id : String
  pub reason : String

-- What `_receipt_match_decision` returns for a receipt that cannot be reused.
pub record Rejection : Type 0 where
  pub receipt_id : String
  pub code : String
  pub reason : String

-- The `cache_decision` of a check: its three shapes.
pub data CacheDecision : Type 0 where
  not_allowed : CacheDecision
  reuse : (receipt_id : String) (freshness_seconds : ℕ) (invalidate : Bool) → CacheDecision
  rejected : (primary : Option Rejection) (all : List Rejection) (invalidate : Bool) → CacheDecision

pub record ValidationCheck : Type 0 where
  pub cache_decision : CacheDecision
  pub check_id : String
  pub check_type : CheckType
  pub command : String
  pub execution_mode : ExecutionMode
  pub execution_policy : Fields
  pub owner_repo : String
  pub receipt_digest : Option String
  pub receipt_id : Option String
  pub required : Bool
  pub reuse_reason : Option String
  pub scopes : List String
  pub tier : Tier
  pub validator_id : String
  pub reason : String

pub data Outcome : Type 0 where
  blocked planned no_matching_validators : Outcome

pub record PlannerDecision : Type 0 where
  pub blocked_reasons : List String
  pub outcome : Outcome
  pub reasons : List String
  pub requires_operator_review : Bool
  pub suppressed_validators : List SuppressedValidator

-- `ValidationPlan`, without its `plan_id`, a digest of the rest.
pub record ValidationPlan : Type 0 where
  pub check_statuses : List ValidationCheckStatus
  pub checks : List ValidationCheck
  pub decision : PlannerDecision
  pub manifest_id : Value
  pub performance_budget : BudgetDecision
  pub target : ValidationTarget
  pub tier : Tier

-- What the planner raises: its own `ValueError`s, and the errors of Python's library.
pub data PlanError : Type 0 where
  manifest_is_invalid : List ManifestError → PlanError
  unknown_tier unknown_check_type : String → PlanError
  invalid_timestamp empty_target unsupported_target no_relative_path : PlanError
  no_target_id : String → PlanError
  type_error format_error overflow_error : PlanError

abbrev pub known_or : PlanError → Option Tier → Result PlanError Tier
known_or e none = err e
known_or e (some t) = ok t

abbrev tiers : List (String × Tier)
tiers = ("smoke", smoke) ∷ ("scoped", scoped) ∷ ("full", full) ∷ ("release", release) ∷ []

-- `_coerce_tier` of a text; a `ValidationTier` is the text of its value.
unfoldable pub tier_of : String → Option Tier
unfolding lookup strip lower
tier_of tier = lookup (lower (strip tier)) tiers

unfoldable pub coerce_tier : String → Result PlanError Tier
unfolding tier_of
coerce_tier tier = known_or (unknown_tier tier) (tier_of tier)

abbrev pub is_full_surface : Tier → Bool
is_full_surface full = true
is_full_surface release = true
is_full_surface _ = false

abbrev pub is_release : Tier → Bool
is_release release = true
is_release _ = false
