-- ===== src/Plan/Receipts.antt =====
-- The reuse of receipts in validation_planning.py: when a receipt matches, and which one is taken.
use workspace_governance_con.Prelude.{
  ℕ, ◌+◌, ◌*◌, Bool, true, false, not, ◌||◌, leb, ltb, Option, none, some, List, [], ◌∷◌, ◌++◌, map,
  String, str_eq, all, contains, filter, if◌then◌else◌,
}
use workspace_governance_con.Prelude.Int.{ℤ, pos_part}
use workspace_governance_con.Prelude.Text.{strip, lower, is_empty}
use workspace_governance_con.Prelude.Result.{Result, ok, err, ◌>>=◌}
use workspace_governance_con.Value.{
  Value, Fields, null, text, list, dict, nil, get, find, or_else, is_null, truthy, to_int, items_of,
}
use workspace_governance_con.Platform.{Platform, str, optional_str}
use workspace_governance_con.Policy.Read.{parse_timestamp}
use workspace_governance_con.Plan.Model.{
  Tier, tier_order, tier_text, tier_of, ValidationTarget, Rejection, PlanError, overflow_error,
}
use workspace_governance_con.Plan.Targets.{scope_sets_match, iterate, entries_of}
use workspace_governance_con.Plan.Scopes.{stripped, text_at}
use Prim.Native.String.{◌++◌ as ◌<>◌}

-- `isinstance(validator.get("reuse_policy"), dict)`, and the policy.
unfoldable pub reuse_policy : Fields → Option Fields
unfolding get
reuse_policy validator = elim (get validator "reuse_policy") [
  | dict policy ↦ some policy
  | _ ↦ none
]

-- `bool(policy.get(key, default))`
unfoldable pub flag_of : Option Fields → String → Bool → Bool → Bool
unfolding find truthy
flag_of none key default without = without
flag_of (some policy) key default without = elim (find policy key) [
  | none ↦ default
  | some v ↦ truthy v
]

-- `_validator_allows_receipt_reuse`
unfoldable pub allows_receipt_reuse : Fields → Bool
unfolding reuse_policy flag_of
allows_receipt_reuse validator = flag_of (reuse_policy validator) "safe_to_reuse" false false

-- `_invalidate_on_authority_change`
unfoldable pub invalidate_on_authority_change : Fields → Bool
unfolding reuse_policy flag_of
invalidate_on_authority_change validator =
    flag_of (reuse_policy validator) "invalidate_on_authority_change" true true

abbrev integer_or_zero : Option ℤ → ℕ
integer_or_zero none = 0
integer_or_zero (some n) = pos_part n

abbrev policy_seconds : Option Fields → Value
policy_seconds none = null
policy_seconds (some policy) = get policy "freshness_seconds"

-- `_reuse_freshness_seconds`
unfoldable pub reuse_freshness_seconds : Fields → Fields → ℕ
unfolding reuse_policy get is_null to_int
reuse_freshness_seconds validator receipt =
    let raw_value = policy_seconds (reuse_policy validator) in
    integer_or_zero
      (to_int (if is_null raw_value then get receipt "freshness_seconds" else raw_value))

abbrev pub microseconds : ℕ
microseconds = 1_000_000

-- `datetime.max`, in UTC.
abbrev pub last_instant : ℕ
last_instant = 315_537_897_599_999_999

abbrev pub passing : List String
passing = "success" ∷ "passed" ∷ "valid" ∷ []

abbrev pub rejection : String → String → String → Rejection
rejection receipt_id code reason = record {
  receipt_id = receipt_id;
  code = code;
  reason = receipt_id <> (": " <> reason);
}

unfoldable pub captured_fresh : Option ℕ → ℕ → ℕ → Result PlanError Bool
captured_fresh none seconds now = ok false
captured_fresh (some captured_at) seconds now =
    if ltb last_instant (captured_at + seconds * microseconds)
    then err overflow_error
    else ok (leb now (captured_at + seconds * microseconds))

unfoldable pub fresh_by : Option ℕ → Option ℕ → ℕ → ℕ → Result PlanError Bool
unfolding captured_fresh
fresh_by (some expires_at) captured_at seconds now = ok (leb now expires_at)
fresh_by none captured_at seconds now = captured_fresh captured_at seconds now

-- The target of the receipt, one of its scopes, or a pattern among them covers the target.
unfoldable pub covers : String → List String → ValidationTarget → List String → Bool
unfolding contains scope_sets_match
covers receipt_target scopes target candidates =
    str_eq target.scope receipt_target
    || contains receipt_target candidates
    || contains target.scope scopes
    || scope_sets_match scopes candidates

unfoldable pub after_tier :
    Option Tier → Tier → String → Bool → Result PlanError Bool → Result PlanError (Option Rejection)
after_tier none requested name current fresh =
    ok (some (rejection name "invalid-receipt-tier" "invalid receipt tier"))
after_tier (some tier) requested name current fresh =
    if ltb (tier_order tier) (tier_order requested)
    then ok (
        some (
          rejection name "tier-mismatch" (
            "receipt tier "
            <> (tier_text tier <> (" is below requested tier " <> tier_text requested)))))
    else if not current
    then ok
        (some (rejection name "authority-digest-mismatch" "authority digest changed or missing"))
    else (do
      is_fresh ← fresh
      ok (if is_fresh then none else some (rejection name "receipt-stale" "receipt is stale")))

module _ (p : Platform) where
  -- `_receipt_is_fresh`
  unfoldable pub receipt_is_fresh : Fields → Fields → ℕ → Result PlanError Bool
  unfolding fresh_by parse_timestamp get reuse_freshness_seconds
  receipt_is_fresh receipt validator now =
      fresh_by (parse_timestamp p (get receipt "expires_at"))
        (parse_timestamp p (get receipt "captured_at")) (reuse_freshness_seconds validator receipt)
        now

  abbrev pub expected_if : Bool → String → Option String → List (String × String)
  expected_if true authority_id (some digest) = (authority_id, digest) ∷ []
  expected_if _ authority_id _ = []

  unfoldable pub digests_among : List String → List Fields → List (String × String)
  unfolding contains text_at optional_str get
  digests_among authority_ids [] = []
  digests_among authority_ids (authority_ref ∷ rest) =
      let authority_id = text_at p authority_ref "authority_id" in
      expected_if (contains authority_id authority_ids) authority_id
        (optional_str p (get authority_ref "digest"))
      ++ digests_among authority_ids rest

  unfoldable pub authority_ids : Value → List String
  unfolding stripped items_of
  authority_ids (list vs) = filter (λ s. not (is_empty s)) (map (stripped p) (items_of vs))
  authority_ids _ = []

  -- `_validator_authority_digests`; an accepted manifest lists an authority once.
  unfoldable pub validator_authority_digests : Fields → Fields → List (String × String)
  unfolding digests_among authority_ids get entries_of
  validator_authority_digests validator manifest =
      digests_among (authority_ids (get validator "authority_ref_ids"))
        (entries_of (get manifest "authority_refs"))

  unfoldable pub digests_match : List (String × String) → Value → Bool
  unfolding text_at
  digests_match [] supplied = true
  digests_match expected (dict supplied) = all (λ e. str_eq (text_at p supplied e.0) e.1) expected
  digests_match expected _ = false

  -- `_receipt_authority_refs_current`
  unfoldable pub receipt_authority_refs_current : Fields → Fields → Fields → Bool
  unfolding digests_match invalidate_on_authority_change validator_authority_digests get
  receipt_authority_refs_current receipt validator manifest =
      not (invalidate_on_authority_change validator)
      || digests_match (validator_authority_digests validator manifest)
          (get receipt "authority_ref_digests")

  -- `{str(scope).strip() for scope in receipt.get("scopes") or []}`
  unfoldable pub receipt_scopes : Fields → Result PlanError (List String)
  unfolding or_else get iterate stripped
  receipt_scopes receipt = do
    scopes ← iterate (or_else (get receipt "scopes") (list nil))
    ok (map (stripped p) scopes)

  unfoldable pub receipt_tier : Fields → Option Tier
  unfolding tier_of str or_else get
  receipt_tier receipt = tier_of (str p (or_else (get receipt "tier") (text "scoped")))

  -- `str(receipt.get("receipt_id") or "<unknown>").strip()`
  unfoldable pub receipt_name : Fields → String
  unfolding stripped or_else get
  receipt_name receipt = stripped p (or_else (get receipt "receipt_id") (text "<unknown>"))

  -- `_receipt_match_decision`: the rejection, or none for a receipt that can be reused. `candidates`
  -- is the value of `_target_scope_candidates(manifest, target)`.
  unfoldable pub receipt_match_decision :
      Fields
      → String
      → ValidationTarget
      → List String
      → Tier
      → Fields
      → ℕ
      → Fields
      → Result PlanError (Option Rejection)
  unfolding receipt_name text_at contains receipt_scopes covers after_tier receipt_tier
      receipt_authority_refs_current receipt_is_fresh strip lower
  receipt_match_decision receipt validator_id target candidates requested validator now manifest =
      let name = receipt_name receipt in
      let checked = receipt_scopes receipt >>= λ scopes.
      if not (covers (text_at p receipt "target_scope") scopes target candidates)
      then ok (some (rejection name "scope-mismatch" "scope mismatch"))
      else after_tier (receipt_tier receipt) requested name
          (receipt_authority_refs_current receipt validator manifest)
          (receipt_is_fresh receipt validator now) in
      if not (str_eq (text_at p receipt "validator_id") validator_id)
      then ok (some (rejection name "validator-mismatch" "validator mismatch"))
      else if not (contains (lower (text_at p receipt "status")) passing)
      then ok (some (rejection name "receipt-failed" "receipt is not successful"))
      else checked
