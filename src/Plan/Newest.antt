-- ===== src/Plan/Newest.antt =====
-- What `_receipt_reuse_decision` of validation_planning.py decides, in all cases.
use workspace_governance_con.Prelude.{
  ℕ, ◌≡◌, refl, ap, sym, ◌⊎◌, inl, inr, Bool, true, false, not, Option, none, some, List, [], ◌∷◌,
  String, All, if◌then◌else◌,
}
use mathlib.Core.Path.{subst}
use workspace_governance_con.Prelude.Sorting.{Member, All-sort_by, Member-sort_by}
use workspace_governance_con.Prelude.Result.{Result, ok, ◌>>=◌, ok-injective, bound}
use workspace_governance_con.Value.{Fields}
use workspace_governance_con.Platform.{Platform}
use workspace_governance_con.Plan.Model.{
  Tier, ValidationTarget, Rejection, PlanError, CacheDecision, not_allowed, reuse, run,
}
use workspace_governance_con.Plan.Scopes.{text_at}
use workspace_governance_con.Plan.Receipts.{
  allows_receipt_reuse, invalidate_on_authority_change, reuse_freshness_seconds,
  receipt_match_decision,
}
use workspace_governance_con.Plan.Reuse.{
  Search, found, all_rejected, with_rejection, newer_first, newest_receipts_first, search_in,
  search_after, search_receipts, decision_of, digest_of, receipt_reuse_decision,
}
use workspace_governance_con.Plan.Checks.{mode_of}
use workspace_governance_con.Plan.Reusable.{IsReusable, receipt_match_decision-IsReusable_iff}

-- What a search says of the entries.
abbrev Finds : (Fields → Result PlanError (Option Rejection)) → List Fields → Search → Type 0
Finds decide receipts (found r) = Member r receipts × (decide r ≡ ok none)
Finds decide receipts (all_rejected rs) =
    All (λ r. (why : Rejection) × (decide r ≡ ok (some why))) receipts

Finds-with_rejection :
    (decide : Fields → Result PlanError (Option Rejection)) (r : Fields) (rs : List Fields)
    (why : Rejection) (s : Search)
    → decide r ≡ ok (some why)
    → Finds decide rs s
    → Finds decide (r ∷ rs) (with_rejection why s)
Finds-with_rejection decide r rs why (found x) e h = (inr h.0, h.1)
Finds-with_rejection decide r rs why (all_rejected ws) e h = ((why, e), h)

-- The search after a first receipt, by what is known of the rest.
Finds-after :
    (decide : Fields → Result PlanError (Option Rejection)) (r : Fields) (rs : List Fields)
    (o : Option Rejection) (rest : Result PlanError Search) (s : Search)
    → decide r ≡ ok o
    → ((t : Search) → rest ≡ ok t → Finds decide rs t)
    → search_after r o rest ≡ ok s
    → Finds decide (r ∷ rs) s
unfolding search_after
Finds-after decide r rs none rest s e ih h =
    subst (Finds decide (r ∷ rs)) (ok-injective (found r) s h) (inl refl, e)
Finds-after decide r rs (some why) rest s e ih h =
    let (t, et, es) = bound rest (λ t. ok (with_rejection why t)) s h in
    subst (Finds decide (r ∷ rs)) (ok-injective (with_rejection why t) s es)
      (Finds-with_rejection decide r rs why t e (ih t et))

search_in-Finds :
    (decide : Fields → Result PlanError (Option Rejection)) (receipts : List Fields) (s : Search)
    → search_in decide receipts ≡ ok s
    → Finds decide receipts s
unfolding search_in
search_in-Finds decide [] s h = subst (Finds decide []) (ok-injective (all_rejected []) s h) tt
search_in-Finds decide (r ∷ rs) s h =
    let (o, eo, es) = bound (decide r) (λ o. search_after r o (search_in decide rs)) s h in
    Finds-after decide r rs o (search_in decide rs) s eo (search_in-Finds decide rs) es

decided :
    (b : Bool) (m : Result PlanError Search) (f : Search → CacheDecision × Option String)
    (d : CacheDecision × Option String)
    → (if not b then ok (not_allowed, none) else m >>= λ s. ok (f s)) ≡ ok d
    → ((b ≡ false) × (d.0 ≡ not_allowed)) ⊎ ((b ≡ true) × ((s : Search) × (m ≡ ok s) × (f s ≡ d)))
decided false m f d h = inl (refl, sym (ap (λ e. e.0) (ok-injective (not_allowed, none) d h)))
decided true m f d h =
    let (s, es, ed) = bound m (λ s. ok (f s)) d h in inr (refl, (s, es, ok-injective (f s) d ed))

module _ (p : Platform) (validator : Fields) (target : ValidationTarget) (candidates : List String)
    (requested : Tier) (now : ℕ) (manifest : Fields) where
  abbrev CanReuse : Fields → Type 0
  CanReuse receipt =
      IsReusable p receipt (text_at p validator "validator_id") target candidates requested
        validator now manifest

  abbrev matching : Fields → Result PlanError (Option Rejection)
  matching receipt =
      receipt_match_decision p receipt (text_at p validator "validator_id") target candidates
        requested validator now manifest

  -- A receipt that was found, or the rejection of every receipt.
  abbrev pub Decides : List Fields → CacheDecision → Type 0
  Decides receipts decision =
      ((receipt : Fields) × Member receipt receipts
        × CanReuse receipt
        × (decision
            ≡ reuse (text_at p receipt "receipt_id") (reuse_freshness_seconds validator receipt)
                (invalidate_on_authority_change validator)))
      ⊎ (All (λ receipt. (why : Rejection) × (matching receipt ≡ ok (some why))) receipts
          × (mode_of decision ≡ run))

  search-Decides :
      (receipts : List Fields) (s : Search)
      → Finds matching (newest_receipts_first p receipts) s
      → Decides receipts (decision_of p validator s)
  unfolding newest_receipts_first decision_of mode_of
  search-Decides receipts (found r) h = inl (
    r,
    Member-sort_by (newer_first p) r receipts h.0,
    (receipt_match_decision-IsReusable_iff p r _ _ _ _ _ _ _).0 h.1,
    refl,
  )
  search-Decides receipts (all_rejected rs) h = inr (All-sort_by (newer_first p) _ receipts h, refl)

  -- Where the decision is made, either the validator allows no reuse, or a supplied receipt that can be
  -- reused is reused, or every supplied receipt is rejected and the check runs.
  pub receipt_reuse_decision-Decides :
      (receipts : List Fields) (d : CacheDecision × Option String)
      → receipt_reuse_decision p validator target candidates requested receipts now manifest ≡ ok d
      → ((allows_receipt_reuse validator ≡ false) × (d.0 ≡ not_allowed))
        ⊎ ((allows_receipt_reuse validator ≡ true) × Decides receipts d.0)
  unfolding receipt_reuse_decision search_receipts
  receipt_reuse_decision-Decides receipts d h =
      elim (decided (allows_receipt_reuse validator) _
        (λ s. (decision_of p validator s, digest_of p s)) d h) [
          | inl no_reuse ↦ inl no_reuse
          | inr (reuses, (s, es, ed)) ↦ inr (
            reuses,
            subst (Decides receipts) (ap (λ e. e.0) ed)
                (search-Decides receipts s (search_in-Finds matching _ s es)),
          )
        ]
