-- ===== src/Plan/Rounds.antt =====
-- `build_validation_plan` of validation_planning.py: the loop over the validators.
use workspace_governance_con.Prelude.{
  ℕ, Bool, not, Option, none, some, List, [], ◌∷◌, ◌++◌, String, if◌then◌else◌,
}
use workspace_governance_con.Prelude.Text.{text_le}
use workspace_governance_con.Prelude.Sorting.{sort_by}
use workspace_governance_con.Prelude.Result.{Result, ok, ◌>>=◌}
use workspace_governance_con.Value.{Fields, get}
use workspace_governance_con.Platform.{Platform, str}
use workspace_governance_con.Plan.Model.{
  Tier, tier_text, ValidationTarget, suppressed, waived, ValidationCheckStatus, SuppressedValidator,
  ValidationCheck, PlanError,
}
use workspace_governance_con.Plan.Targets.{entries_of}
use workspace_governance_con.Plan.Scopes.{validator_scopes}
use workspace_governance_con.Plan.Template.{command_template_target_error}
use workspace_governance_con.Plan.Checks.{
  tier_included, scope_included, validator_tier, check_status, selected_check_status,
  validation_check,
}
use workspace_governance_con.Plan.Waivers.{valid_validator_waiver}
use Prim.Native.String.{◌++◌ as ◌<>◌}

-- What one round of the loop appends: a check with its status, a suppressed validator, or a waiver.
pub data Round : Type 0 where
  chosen : ValidationCheck → Round
  left_out : String → Round
  by_waiver : String → Round

-- What the rounds share.
pub record Request : Type 0 where
  pub manifest : Fields
  pub target : ValidationTarget
  pub candidates : List String
  pub tier : Tier
  pub receipts : List Fields
  pub waivers : List Fields
  pub now : ℕ

abbrev pub Rounds : Type 0
Rounds = List (Fields × Round)

abbrev pub check_of : Round → List ValidationCheck
check_of (chosen check) = check ∷ []
check_of _ = []

-- `selected`
unfoldable pub checks_in : Rounds → List ValidationCheck
checks_in [] = []
checks_in (r ∷ rs) = check_of r.1 ++ checks_in rs

module _ (p : Platform) where
  unfoldable pub waived_or_checked :
      Request → Fields → Tier → Option String → Result PlanError Round
  unfolding validation_check
  waived_or_checked r validator tier (some waiver_id) = ok (by_waiver waiver_id)
  waived_or_checked r validator tier none =
      validation_check p validator r.target r.candidates tier r.tier r.manifest r.receipts r.now
      >>= λ check. ok (chosen check)

  unfoldable pub in_scope_round : Request → Fields → Tier → Option String → Result PlanError Round
  unfolding waived_or_checked valid_validator_waiver
  in_scope_round r validator tier (some template_error) = ok (left_out template_error)
  in_scope_round r validator tier none =
      waived_or_checked r validator tier (valid_validator_waiver p validator r.waivers r.now)

  -- One round of the loop, once the tier of the validator is read.
  unfoldable pub tier_round : Request → Fields → Tier → Result PlanError Round
  unfolding tier_included scope_included validator_scopes in_scope_round
      command_template_target_error get
  tier_round r validator tier =
      if not (tier_included tier r.tier)
      then ok (
          left_out (
            "validator tier "
            <> (tier_text tier <> (" is above requested tier " <> tier_text r.tier))))
      else if not (scope_included (validator_scopes p validator) r.tier r.candidates)
      then ok (left_out ("validator does not declare a scope matching " <> r.target.scope))
      else in_scope_round r validator tier
          (command_template_target_error p (str p (get validator "command")) r.target)

  unfoldable pub round_of : Request → Fields → Result PlanError Round
  unfolding validator_tier tier_round
  round_of r validator = validator_tier p validator >>= λ tier. tier_round r validator tier

  unfoldable pub rounds_of : Request → List Fields → Result PlanError Rounds
  unfolding round_of
  rounds_of r [] = ok []
  rounds_of r (validator ∷ validators) = do
    round ← round_of r validator
    rest ← rounds_of r validators
    ok ((validator, round) ∷ rest)

  abbrev pub left_out_of : Fields × Round → List SuppressedValidator
  left_out_of (validator, left_out reason) =
      record { validator_id = str p (get validator "validator_id"); reason = reason } ∷ []
  left_out_of _ = []

  -- `suppressed`
  unfoldable pub suppressed_in : Rounds → List SuppressedValidator
  unfolding str get
  suppressed_in [] = []
  suppressed_in (r ∷ rs) = left_out_of r ++ suppressed_in rs

  unfoldable pub status_of : Request → Fields × Round → ValidationCheckStatus
  unfolding check_status selected_check_status
  status_of r (validator, chosen check) = selected_check_status p check r.target r.manifest
  status_of r (validator, left_out reason) = check_status p validator suppressed reason
  status_of r (validator, by_waiver waiver_id) =
      check_status p validator waived ("validator is covered by waiver " <> waiver_id)

  unfoldable pub by_validator_id : Fields → Fields → Bool
  unfolding str get
  by_validator_id a b = text_le (str p (get a "validator_id")) (str p (get b "validator_id"))

  -- `sorted(manifest["validators"], key=lambda item: item["validator_id"])`
  unfoldable pub validators_of : Fields → List Fields
  unfolding by_validator_id entries_of get
  validators_of manifest = sort_by by_validator_id (entries_of (get manifest "validators"))
