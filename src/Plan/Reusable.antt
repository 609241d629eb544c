-- ===== src/Plan/Reusable.antt =====
-- Which receipts can be reused, said without `_receipt_match_decision` of validation_planning.py.
use workspace_governance_con.Prelude.{
  ℕ, ◌+◌, ◌*◌, ◌≤◌, ◌≡◌, ◌↔◌, refl, ap, ◌∙◌, eq_iff, Bool, true, false, not, ltb, Option, none,
  some, List, String, str_eq, contains, arith, inl, inr, Bool-cases, if◌then◌else◌,
}
use workspace_governance_con.Prelude.Text.{lower}
use workspace_governance_con.Prelude.Result.{Result, ok, err, ◌>>=◌, ok-injective}
use workspace_governance_con.Value.{Fields, get}
use workspace_governance_con.Platform.{Platform}
use workspace_governance_con.Policy.Read.{parse_timestamp}
use workspace_governance_con.Plan.Model.{Tier, tier_order, ValidationTarget, Rejection, PlanError}
use workspace_governance_con.Plan.Scopes.{text_at}
use workspace_governance_con.Plan.Authority.{IsCurrent, receipt_authority_refs_current_iff}
use workspace_governance_con.Plan.Receipts.{
  passing, covers, receipt_scopes, receipt_tier, receipt_is_fresh, reuse_freshness_seconds,
  after_tier, receipt_match_decision, microseconds, last_instant, captured_fresh, fresh_by,
}

-- Fresh at an instant: not expired or, without an expiry, captured recently enough.
abbrev pub IsFresh : Option ℕ → Option ℕ → ℕ → ℕ → Type 0
IsFresh (some expires_at) captured_at seconds now = now ≤ expires_at
IsFresh none (some captured_at) seconds now =
    (now ≤ captured_at + seconds * microseconds)
    × (captured_at + seconds * microseconds ≤ last_instant)
IsFresh none none seconds now = ⊥

-- A tier that is read and not below the one that is requested.
abbrev pub IsTierFor : Option Tier → Tier → Type 0
IsTierFor none requested = ⊥
IsTierFor (some t) requested = tier_order requested ≤ tier_order t

pub record IsReusable (p : Platform) (receipt : Fields) (validator_id : String)
    (target : ValidationTarget) (candidates : List String) (requested : Tier) (validator : Fields)
    (now : ℕ) (manifest : Fields) : Type 0 where
  pub same_validator : text_at p receipt "validator_id" ≡ validator_id
  pub success : contains (lower (text_at p receipt "status")) passing ≡ true
  pub in_scope :
      (scopes : List String) × (receipt_scopes p receipt ≡ ok scopes)
      × (covers (text_at p receipt "target_scope") scopes target candidates ≡ true)
  pub high_enough : IsTierFor (receipt_tier p receipt) requested
  pub authority : IsCurrent p receipt validator manifest
  pub fresh :
      IsFresh
        (parse_timestamp p (get receipt "expires_at"))
        (parse_timestamp p (get receipt "captured_at"))
        (reuse_freshness_seconds validator receipt)
        now

-- One test of the chain: what follows it is read only where it holds.
passed_iff :
    (b : Bool) (r : Rejection) (m : Result PlanError (Option Rejection))
    → ((if not b then ok (some r) else m) ≡ ok none) ↔ ((b ≡ true) × (m ≡ ok none))
passed_iff true r m = ((λ h. (refl, h)), λ h. h.1)
passed_iff false r m = ((λ h. cc), λ h. cc)

captured_fresh_iff :
    (captured_at : Option ℕ) (seconds now : ℕ)
    → (captured_fresh captured_at seconds now ≡ ok true) ↔ IsFresh none captured_at seconds now
unfolding captured_fresh
captured_fresh_iff none seconds now = ((λ h. cc), λ h. absurd h)
captured_fresh_iff (some captured_at) seconds now = ((λ h. ground arith), λ h. ground arith)

fresh_iff :
    (expires_at captured_at : Option ℕ) (seconds now : ℕ)
    → (fresh_by expires_at captured_at seconds now ≡ ok true)
      ↔ IsFresh expires_at captured_at seconds now
unfolding fresh_by
fresh_iff (some expires_at) captured_at seconds now = ((λ h. ground arith), λ h. ground arith)
fresh_iff none captured_at seconds now = captured_fresh_iff captured_at seconds now

stale_iff :
    (m : Result PlanError Bool) (r : Rejection)
    → ((m >>= λ b. ok (if b then none else some r)) ≡ ok none) ↔ (m ≡ ok true)
stale_iff (ok true) r = ((λ h. refl), λ h. refl)
stale_iff (ok false) r = ((λ h. cc), λ h. cc)
stale_iff (err e) r = ((λ h. cc), λ h. cc)

after_tier_iff :
    (o : Option Tier) (requested : Tier) (name : String) (current : Bool)
    (m : Result PlanError Bool)
    → (after_tier o requested name current m ≡ ok none)
      ↔ (IsTierFor o requested × ((current ≡ true) × (m ≡ ok true)))
unfolding after_tier
after_tier_iff none requested name current m = ((λ h. cc), λ h. absurd h.0)
after_tier_iff (some t) requested name current m =
    elim (Bool-cases (ltb (tier_order t) (tier_order requested))) [
      | inl low ↦ rw low ((λ h. cc), λ h. absurd (ground arith))
      | inr high ↦ rw high (
        (λ h.
            let (c, rest) = (passed_iff current _ _).0 h in
            (ground arith, (c, (stale_iff m _).0 rest))),
        λ h. (passed_iff current _ _).1 (h.1.0, (stale_iff m _).1 h.1.1),
      )
    ]

scoped_iff :
    (m : Result PlanError (List String)) (g : List String → Bool) (r : Rejection)
    (n : Result PlanError (Option Rejection))
    → ((m >>= λ scopes. if not (g scopes) then ok (some r) else n) ≡ ok none)
      ↔ ((scopes : List String) × (m ≡ ok scopes) × (g scopes ≡ true) × (n ≡ ok none))
scoped_iff (ok scopes) g r n = (
  (λ h. let (a, b) = (passed_iff (g scopes) r n).0 h in (scopes, refl, a, b)),
  λ (s, e, a, b). (passed_iff (g scopes) r n).1 (ap g (ok-injective scopes s e) ∙ a, b),
)
scoped_iff (err e) g r n = ((λ h. cc), λ h. cc)

pub receipt_match_decision-IsReusable_iff :
    (p : Platform) (receipt : Fields) (validator_id : String) (target : ValidationTarget)
    (candidates : List String) (requested : Tier) (validator : Fields) (now : ℕ) (manifest : Fields)
    → (receipt_match_decision p receipt validator_id target candidates requested validator now
          manifest
        ≡ ok none)
      ↔ IsReusable p receipt validator_id target candidates requested validator now manifest
unfolding receipt_match_decision receipt_is_fresh
receipt_match_decision-IsReusable_iff p receipt validator_id target candidates requested validator
      now manifest =
    (
      (λ h.
          let (same, h1) = (passed_iff _ _ _).0 h in
          let (success, h2) = (passed_iff _ _ _).0 h1 in
          let (scopes, read, in_scope, h3) = (scoped_iff (receipt_scopes p receipt) _ _ _).0 h2 in
          let (high, (current, is_fresh)) =
            (after_tier_iff (receipt_tier p receipt) _ _ _ _).0 h3 in
          record {
            same_validator = (eq_iff _ _).0 same;
            success = success;
            in_scope = (scopes, read, in_scope);
            high_enough = high;
            authority = (receipt_authority_refs_current_iff p receipt validator manifest).0 current;
            fresh = (fresh_iff _ _ _ _).0 is_fresh;
          }),
      λ r. (passed_iff (str_eq (text_at p receipt "validator_id") validator_id) _ _).1 (
        (eq_iff _ _).1 r.same_validator,
        (passed_iff (contains (lower (text_at p receipt "status")) passing) _ _).1 (
          r.success,
          (scoped_iff (receipt_scopes p receipt)
                (λ scopes. covers (text_at p receipt "target_scope") scopes target candidates) _
                _).1
              (
                r.in_scope.0,
                r.in_scope.1,
                r.in_scope.2,
                (after_tier_iff (receipt_tier p receipt) requested _ _ _).1 (
                  r.high_enough,
                  (
                    (receipt_authority_refs_current_iff p receipt validator manifest).1 r.authority,
                    (fresh_iff _ _ _ _).1 r.fresh,
                  ),
                ),
              ),
        ),
      ),
    )
