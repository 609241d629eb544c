-- ===== src/Examples/Planning.antt =====
-- The theorems about manifests.py and validation_planning.py, and about the execution of a plan, at
-- concrete inputs.
use workspace_governance_con.Prelude.{
  ◌+◌, ◌≡◌, ◌≢◌, refl, ◌↔◌, ◌⊎◌, true, false, none, some, List, [], ◌∷◌, length, map, String,
  contains,
}
use workspace_governance_con.Prelude.Int.{pos}
use mathlib.Core.List.{Perm}
use workspace_governance_con.Prelude.Text.{text_le, strip, slashes}
use workspace_governance_con.Prelude.Sorting.{sort_by}
use workspace_governance_con.Prelude.Ascending.{IsAscending}
use workspace_governance_con.Prelude.Result.{ok}
use workspace_governance_con.Value.{
  Value, Fields, int, text, list, dict, nil, cons, end, field, bool, get,
}
use workspace_governance_con.Platform.{silent, str}
use workspace_governance_con.Manifest.Validate.{validate_governance_manifest}
use workspace_governance_con.Manifest.Spec.{IsManifest}
use workspace_governance_con.Manifest.Accepted.{validate_governance_manifest-IsManifest_iff}
use workspace_governance_con.Plan.Model.{
  Tier, scoped, release, ValidationTarget, ValidationPlan, CheckType, CacheDecision, not_allowed,
  reuse,
}
use workspace_governance_con.Plan.Targets.{entries_of, normalize_changed_file_target, scope_matches}
use workspace_governance_con.Plan.Scopes.{text_at}
use workspace_governance_con.Plan.Template.{command_template_target_error}
use workspace_governance_con.Plan.Receipts.{allows_receipt_reuse}
use workspace_governance_con.Plan.Reuse.{receipt_reuse_decision}
use workspace_governance_con.Plan.Checks.{check_from, validator_tier}
use workspace_governance_con.Plan.Waivers.{valid_validator_waiver}
use workspace_governance_con.Plan.Rounds.{
  Request, Rounds, chosen, left_out, by_waiver, rounds_of, round_of, validators_of,
}
use workspace_governance_con.Plan.Build.{plan_of, planned_for, stale_authorities}
use workspace_governance_con.Plan.Relative.{
  IsRelativePath, normalize_changed_file_target-IsRelativePath,
}
use workspace_governance_con.Plan.Reread.{normalize_changed_file_target-again}
use workspace_governance_con.Plan.Patterns.{IsPattern, scope_matches_iff}
use workspace_governance_con.Plan.Newest.{Decides, receipt_reuse_decision-Decides}
use workspace_governance_con.Plan.Partition.{Explains, round_of-Explains}
use workspace_governance_con.Plan.Coverage.{
  ids_of, waivers_in, IsBlocked, planned_for-ids, planned_for-count, planned_for-IsBlocked,
}
use workspace_governance_con.Execution.Run.{check_results}
use workspace_governance_con.Execution.Outcome.{receipt_outcome, was_blocked}
use workspace_governance_con.Execution.Composed.{check_results-stale}
use workspace_governance_con.Examples.Running.{machine}
use workspace_governance_con.Plan.Surface.{Waives, round_of-release, valid_validator_waiver-Waives}

abbrev one : Value → Value
one v = list (cons v nil)

abbrev authority : Fields
authority = field "authority_id" (text "contracts") (
    field "repo" (text "governance") (
      field "path" (text "contracts/")
        (field "ref" (text "main") (field "digest" (text "sha256:1") end))))

-- A validator of the whole workspace, run by a command, whose receipts can be reused.
abbrev validator : Fields
validator = field "validator_id" (text "unit") (
    field "owner_repo" (text "fabric") (
      field "command" (text "make test") (
        field "scopes" (one (text "workspace")) (
          field "authority_ref_ids" (one (text "contracts"))
            (field "reuse_policy" (dict (field "safe_to_reuse" (bool true) end)) end)))))

abbrev broken_validator : Fields
broken_validator = field "validator_id" (text "broken") (
    field "owner_repo" (text "fabric") (
      field "command" (text "make {") (
        field "scopes" (one (text "workspace"))
          (field "authority_ref_ids" (one (text "contracts")) end))))

abbrev manifest : Fields
manifest = field "schema_version" (int (pos 1)) (
    field "manifest_id" (text "m-1") (
      field "owner_repo" (text "fabric") (
        field "authority_refs" (one (dict authority)) (
          field "repos" (list nil) (
            field "components" (list nil) (
              field "validators" (list (cons (dict validator) (cons (dict broken_validator) nil)))
                (field "projections" (list nil) end)))))))

manifest-accepted : validate_governance_manifest silent (dict manifest) ≡ []
unfolding validate_governance_manifest
manifest-accepted = refl

validate_governance_manifest-IsManifest_iff_example :
    (validate_governance_manifest silent (dict manifest) ≡ []) ↔ IsManifest silent manifest
validate_governance_manifest-IsManifest_iff_example =
    validate_governance_manifest-IsManifest_iff silent manifest

abbrev file_target : ValidationTarget
file_target = record {
  scope = "changed-file:src/a.py";
  target_type = "changed-file";
  target_id = "src/a.py";
}

normalized : normalize_changed_file_target "changed-file: ./src//a.py" ≡ ok file_target
unfolding normalize_changed_file_target contains
normalized = refl

normalize_changed_file_target-IsRelativePath_example :
    IsRelativePath "src/a.py" × Path String "changed-file:src/a.py" "changed-file:src/a.py"
normalize_changed_file_target-IsRelativePath_example =
    normalize_changed_file_target-IsRelativePath "changed-file: ./src//a.py" file_target normalized

abbrev workspace : ValidationTarget
workspace = record { scope = "workspace"; target_type = "workspace"; target_id = "workspace" }

-- A success of the validator for the workspace, a minute fresh.
abbrev receipt : Fields
receipt = field "receipt_id" (text "r-1") (
    field "validator_id" (text "unit") (
      field "status" (text "success") (
        field "target_scope" (text "workspace") (
          field "captured_at" (text "now") (
            field "freshness_seconds" (int (pos 60)) (
              field "authority_ref_digests" (dict (field "contracts" (text "sha256:1") end))
                end))))))

abbrev waiver : Fields
waiver = field "waiver_id" (text "w-1") (field "validator_id" (text "unit") end)

abbrev request : Tier → Request
request tier = record {
  manifest = manifest;
  target = workspace;
  candidates = "workspace" ∷ [];
  tier = tier;
  receipts = receipt ∷ [];
  waivers = [];
  now = 0;
}

abbrev reused : CacheDecision
reused = reuse "r-1" 60 true

abbrev unbalanced : String
unbalanced = "validator command template has unbalanced braces"

abbrev rounds : Rounds
rounds =
    (broken_validator, left_out unbalanced)
    ∷ (
      validator,
      chosen (
          check_from silent validator workspace ("workspace" ∷ []) scoped scoped (reused, none)
            CheckType.command "make test"),
    )
    ∷ []

abbrev plan : ValidationPlan
unfolding plan_of
plan = plan_of silent (request scoped) true rounds

plan-made : planned_for silent (request scoped) true ≡ ok plan
unfolding planned_for plan_of sort_by
plan-made = refl

planned_for-ids_example :
    (vs : List Fields) × (ids_of plan.check_statuses
      ≡ map (λ v. text_at silent v "validator_id") vs)
    × Perm vs (entries_of (get manifest "validators"))
    × IsAscending
        (λ a b. text_le (str silent (get a "validator_id")) (str silent (get b "validator_id")))
        vs
planned_for-ids_example = planned_for-ids silent (request scoped) true plan plan-made

planned_for-count_example :
    (rs : Rounds) × (rounds_of silent (request scoped) (validators_of silent manifest) ≡ ok rs)
    × (length plan.checks + (length plan.decision.suppressed_validators + waivers_in rs)
        ≡ length (entries_of (get manifest "validators")))
planned_for-count_example = planned_for-count silent (request scoped) true plan plan-made

-- The authority has no freshness status, so it is not current.
stale : stale_authorities silent (entries_of (get manifest "authority_refs")) ≢ []
unfolding stale_authorities entries_of get
stale = λ e. cc

abbrev release_rounds : Rounds
release_rounds = (broken_validator, left_out unbalanced) ∷ (validator, by_waiver "w-1") ∷ []

abbrev release_request : Request
release_request = record (request release) { waivers = waiver ∷ [] }

abbrev release_plan : ValidationPlan
unfolding plan_of
release_plan = plan_of silent release_request true release_rounds

release_plan-made : planned_for silent release_request true ≡ ok release_plan
unfolding planned_for plan_of sort_by
release_plan-made = refl

planned_for-IsBlocked_example : IsBlocked release_plan
planned_for-IsBlocked_example =
    planned_for-IsBlocked silent release_request true release_plan refl stale release_plan-made

check_results-stale_example :
    (check_results silent machine release_plan ≡ [])
    × (receipt_outcome release_plan.decision.outcome (check_results silent machine release_plan)
        ≡ was_blocked)
check_results-stale_example =
    check_results-stale silent machine release_request true release_plan refl stale
      release_plan-made

broken_round : round_of silent release_request broken_validator ≡ ok (left_out unbalanced)
unfolding round_of
broken_round = refl

round_of-release_example :
    command_template_target_error silent (str silent (get broken_validator "command")) workspace
    ≡ some unbalanced
round_of-release_example =
    round_of-release silent release_request broken_validator unbalanced refl broken_round

waived_round : round_of silent release_request validator ≡ ok (by_waiver "w-1")
unfolding round_of sort_by
waived_round = refl

round_of-Explains_example :
    (tier : Tier) × (validator_tier silent validator ≡ ok tier)
    × Explains silent release_request validator tier (by_waiver "w-1")
round_of-Explains_example =
    round_of-Explains silent release_request validator (by_waiver "w-1") waived_round

valid_validator_waiver-Waives_example :
    Waives silent
      (text_at silent validator "validator_id")
      0
      (waiver ∷ [])
      (valid_validator_waiver silent validator (waiver ∷ []) 0)
valid_validator_waiver-Waives_example =
    valid_validator_waiver-Waives silent validator (waiver ∷ []) 0

reuse_found :
    receipt_reuse_decision silent validator workspace
      ("workspace" ∷ [])
      scoped
      (receipt ∷ [])
      0
      manifest
    ≡ ok (reused, none)
unfolding receipt_reuse_decision sort_by
reuse_found = refl

receipt_reuse_decision-Decides_example :
    ((allows_receipt_reuse validator ≡ false) × (reused ≡ not_allowed))
    ⊎ ((allows_receipt_reuse validator ≡ true)
        × Decides silent validator workspace
            ("workspace" ∷ [])
            scoped
            0
            manifest
            (receipt ∷ [])
            reused)
receipt_reuse_decision-Decides_example =
    receipt_reuse_decision-Decides silent validator workspace ("workspace" ∷ []) scoped 0 manifest
      (receipt ∷ []) (reused, none) reuse_found

reread_target : normalize_changed_file_target "changed-file: .\\src//a.py" ≡ ok file_target
unfolding normalize_changed_file_target contains strip slashes
reread_target = refl

normalize_changed_file_target-again_example :
    normalize_changed_file_target "changed-file:src/a.py" ≡ ok file_target
unfolding strip
normalize_changed_file_target-again_example =
    normalize_changed_file_target-again "changed-file: .\\src//a.py" file_target reread_target refl

-- A path that starts with a blank is accepted, and read again without it.
blank_path :
    normalize_changed_file_target "changed-file:./ a"
    ≡ ok (record file_target { scope = "changed-file: a"; target_id = " a" })
unfolding normalize_changed_file_target contains strip slashes
blank_path = refl

blank_path_again :
    normalize_changed_file_target "changed-file: a"
    ≡ ok (record file_target { scope = "changed-file:a"; target_id = "a" })
unfolding normalize_changed_file_target contains strip slashes
blank_path_again = refl

scope_matches_iff_example :
    (scope_matches "repo:*" "repo:fabric" ≡ true)
    ↔ (Path String "repo:*" "repo:fabric" ⊎ IsPattern "repo:*" "repo:fabric")
scope_matches_iff_example = scope_matches_iff "repo:*" "repo:fabric"
