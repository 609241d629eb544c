-- ===== src/Agent/Verdict.antt =====
-- When `evaluate_agent_action_request` of agent_action_policy.py allows an action.
use workspace_governance_con.Prelude.{
  ℕ, ◌≤◌, ◌<◌, ◌≡◌, refl, sym, ◌∙◌, ◌↔◌, Bool, true, not, ◌&&◌, ◌||◌, List, [], ◌∷◌, String, arith,
  leb, ltb, contains,
}
use workspace_governance_con.Value.{Fields, get}
use workspace_governance_con.Platform.{Platform}
use workspace_governance_con.Agent.Model.{Bundle, Request}
use workspace_governance_con.Agent.Codes.{
  Codes, actor_bindings, target_bindings, codes_of, unique, unique_from,
}
use workspace_governance_con.Agent.Decide.{allow, decided, mutates, verdict_of}
use workspace_governance_con.Agent.Clean.{
  is_nil, clean, all_verified, admitted, approved, fresh, clean-codes_of,
}

is_nil-unique : (xs : List String) → is_nil (unique xs) ≡ is_nil xs
unfolding unique unique_from contains
is_nil-unique [] = refl
is_nil-unique (x ∷ xs) = refl

decided-allow : (d r : List String) → ((decided d r).0 ≡ allow) ↔ ((is_nil d && is_nil r) ≡ true)
unfolding decided
decided-allow [] [] = ((λ _. refl), λ _. refl)
decided-allow [] (x ∷ r) = ((λ h. cc), λ h. cc)
decided-allow (x ∷ d) r = ((λ h. cc), λ h. cc)

allow-clean :
    (c : Codes) → ((decided (unique c.deny) (unique c.review)).0 ≡ allow) ↔ (clean c ≡ true)
allow-clean c =
    let (x, y) = decided-allow (unique c.deny) (unique c.review) in
    let e = is_nil-unique c.deny in
    let f = is_nil-unique c.review in
    ((λ h. let t = x h in ground (arith, e, f)), λ h. y (rw (e, f) h))

authorized_iff :
    (q e n : ℕ) (a c t m ap f : Bool)
    → (((((((ltb q e && (leb q n && ltb n e)) && a) && c) && t) && (not m || ap)) && f) ≡ true) ↔ (
        (q < e)
        × (q ≤ n)
        × (n < e)
        × (a ≡ true)
        × (c ≡ true)
        × (t ≡ true)
        × (m ≡ true → ap ≡ true)
        × (f ≡ true))
authorized_iff q e n a c t m ap f = ground arith

module _ (p : Platform) (b : Bundle) (current : Fields) (r : Request)
    (requested_at expires_at now : ℕ) where
  -- What an allowed action has: a window that is open, bindings that are current and equal to the
  -- requested ones, an admitted command, for a mutation an approval that has not expired, and an
  -- idempotency key that is not consumed.
  abbrev pub Authorized : Type 0
  Authorized =
      (requested_at < expires_at)
      × (requested_at ≤ now)
      × (now < expires_at)
      × (all_verified b current (actor_bindings r) ≡ true)
      × (admitted b current r.command (get current "admitted_commands") ≡ true)
      × (all_verified b current (target_bindings r) ≡ true)
      × (mutates p r ≡ true → approved b current r now ≡ true)
      × (fresh b current r.idempotency_key (get current "consumed_idempotency") ≡ true)

  -- An action is allowed exactly when it is authorized.
  pub verdict_of-allow_iff :
      ((verdict_of p b current r requested_at expires_at now).0 ≡ allow) ↔ Authorized
  unfolding verdict_of
  verdict_of-allow_iff =
      let c = codes_of b current r (mutates p r) requested_at expires_at now in
      let facts = clean-codes_of b current r (mutates p r) requested_at expires_at now in
      let (a, d) = allow-clean c in
      let (e, f) =
        authorized_iff requested_at expires_at now (all_verified b current (actor_bindings r))
          (admitted b current r.command (get current "admitted_commands"))
          (all_verified b current (target_bindings r)) (mutates p r) (approved b current r now)
          (fresh b current r.idempotency_key (get current "consumed_idempotency")) in
      ((λ h. e (sym facts ∙ a h)), λ h. d (facts ∙ f h))
