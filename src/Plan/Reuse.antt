-- ===== src/Plan/Reuse.antt =====
-- `_receipt_reuse_decision` of validation_planning.py: the newest receipt that matches is taken.
use workspace_governance_con.Prelude.{
  ℕ, Bool, not, ◌&&◌, ◌||◌, ◌==◌, ltb, Option, none, some, List, [], ◌∷◌, String, str_eq,
  if◌then◌else◌,
}
use workspace_governance_con.Prelude.Text.{text_le}
use workspace_governance_con.Prelude.Sorting.{sort_by}
use workspace_governance_con.Prelude.Result.{Result, ok, ◌>>=◌}
use workspace_governance_con.Value.{Fields, text, get, or_else}
use workspace_governance_con.Platform.{Platform, str, optional_str}
use workspace_governance_con.Policy.Read.{parse_timestamp}
use workspace_governance_con.Plan.Model.{
  Tier, ValidationTarget, Rejection, PlanError, CacheDecision, not_allowed, reuse, rejected,
}
use workspace_governance_con.Plan.Scopes.{text_at}
use workspace_governance_con.Plan.Receipts.{
  allows_receipt_reuse, invalidate_on_authority_change, reuse_freshness_seconds,
  receipt_match_decision,
}

-- What is found in the receipts: one to reuse, or the rejections of them all.
pub data Search : Type 0 where
  found : Fields → Search
  all_rejected : List Rejection → Search

abbrev pub with_rejection : Rejection → Search → Search
with_rejection r (found receipt) = found receipt
with_rejection r (all_rejected rs) = all_rejected (r ∷ rs)

-- `next((r for r in rejected if r.code != "validator-mismatch"), rejected[0] if rejected else {})`
unfoldable pub other_than_mismatch : List Rejection → Option Rejection
other_than_mismatch [] = none
other_than_mismatch (r ∷ rs) =
    let later = other_than_mismatch rs in
    if str_eq r.code "validator-mismatch" then later else some r

abbrev first_of : List Rejection → Option Rejection
first_of [] = none
first_of (r ∷ rs) = some r

unfoldable pub primary_rejection : List Rejection → Option Rejection
unfolding other_than_mismatch
primary_rejection rs = elim (other_than_mismatch rs) [ none ↦ first_of rs | some r ↦ some r ]

abbrev or_minimum : Option ℕ → ℕ
or_minimum none = 0
or_minimum (some t) = t

-- The search, once the first receipt is decided.
unfoldable pub search_after :
    Fields → Option Rejection → Result PlanError Search → Result PlanError Search
search_after receipt none rest = ok (found receipt)
search_after receipt (some r) rest = rest >>= λ s. ok (with_rejection r s)

-- The loop over the receipts, by its test of one.
unfoldable pub search_in :
    (Fields → Result PlanError (Option Rejection)) → List Fields → Result PlanError Search
unfolding search_after
search_in decide [] = ok (all_rejected [])
search_in decide (receipt ∷ receipts) =
    let rest = search_in decide receipts in decide receipt >>= λ o. search_after receipt o rest

module _ (p : Platform) where
  -- The key `(captured_at or datetime.min, receipt_id)`.
  captured : Fields → ℕ
  unfolding parse_timestamp get
  captured receipt = or_minimum (parse_timestamp p (get receipt "captured_at"))

  sort_name : Fields → String
  unfolding str or_else get
  sort_name receipt = str p (or_else (get receipt "receipt_id") (text ""))

  unfoldable pub newer_first : Fields → Fields → Bool
  unfolding captured sort_name
  newer_first a b =
      ltb (captured b) (captured a)
      || (captured a == captured b && text_le (sort_name b) (sort_name a))

  -- `_newest_receipts_first`; a reversed sort of Python keeps the order of equal keys.
  unfoldable pub newest_receipts_first : List Fields → List Fields
  unfolding newer_first
  newest_receipts_first receipts = sort_by newer_first receipts

  unfoldable pub search_receipts :
      Fields
      → ValidationTarget
      → List String
      → Tier
      → List Fields
      → ℕ
      → Fields
      → Result PlanError Search
  unfolding search_in newest_receipts_first receipt_match_decision text_at
  search_receipts validator target candidates requested receipts now manifest =
      search_in
        (λ receipt.
          receipt_match_decision p receipt (text_at p validator "validator_id") target candidates
            requested validator now manifest)
        (newest_receipts_first receipts)

  unfoldable pub decision_of : Fields → Search → CacheDecision
  unfolding text_at reuse_freshness_seconds invalidate_on_authority_change primary_rejection
  decision_of validator (found receipt) =
      reuse (text_at p receipt "receipt_id") (reuse_freshness_seconds validator receipt)
        (invalidate_on_authority_change validator)
  decision_of validator (all_rejected rs) =
      rejected (primary_rejection rs) rs (invalidate_on_authority_change validator)

  unfoldable pub digest_of : Search → Option String
  unfolding optional_str or_else get
  digest_of (found receipt) =
      optional_str p (or_else (get receipt "digest") (get receipt "receipt_digest"))
  digest_of (all_rejected _) = none

  -- `_receipt_reuse_decision`: the cache decision, and the digest of the receipt that is reused.
  unfoldable pub receipt_reuse_decision :
      Fields
      → ValidationTarget
      → List String
      → Tier
      → List Fields
      → ℕ
      → Fields
      → Result PlanError (CacheDecision × Option String)
  unfolding allows_receipt_reuse search_receipts decision_of digest_of
  receipt_reuse_decision validator target candidates requested receipts now manifest =
      if not (allows_receipt_reuse validator)
      then ok (not_allowed, none)
      else search_receipts validator target candidates requested receipts now manifest >>= λ s.
          ok (decision_of validator s, digest_of s)
