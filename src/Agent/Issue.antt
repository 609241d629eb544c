-- ===== src/Agent/Issue.antt =====
-- What `evaluate_agent_action_request` of agent_action_policy.py returns.
use workspace_governance_con.Prelude.{
  ℕ, ◌≡◌, refl, sym, ◌∙◌, ◌↔◌, Bool, true, false, List, [], ◌∷◌, String, if◌then◌else◌,
}
use workspace_governance_con.Value.{Value, Fields, end, text, dict, get}
use mathlib.Core.Path.{subst}
use workspace_governance_con.Canonical.Projection.{content_projection, with_digest}
use workspace_governance_con.Platform.{Platform}
use workspace_governance_con.Canonical.Domain.{Violation, canonicalization_errors}
use workspace_governance_con.Agent.Model.{
  Error, Result, ok, err, ◌>>=◌, Bundle, Now, validate, parse_timestamp, coerce_timestamp, Request,
  read_request,
}
use workspace_governance_con.Agent.Decide.{
  digest, draft, identity_onto, uri_ref, unique_refs, Outcome, deny, review_required, allow,
  outcome_text, issue, verdict_of, first_violation, validate_content_digest, evaluate_objects,
  evaluate_agent_action_request,
}
use workspace_governance_con.Agent.Verdict.{Authorized, verdict_of-allow_iff}

-- A chain that succeeds went through each of its steps.
bind-ok {ℓ κ} :
    {A : Type ℓ} {B : Type κ} (m : Result A) (f : A → Result B) (v : B)
    → (m >>= f) ≡ ok v
    → (a : A) × (m ≡ ok a) × (f a ≡ ok v)
bind-ok (ok a) f v h = (a, refl, h)
bind-ok (err e) f v h = cc

first_violation-ok : (vs : List Violation) (u : Unit) → first_violation vs ≡ ok u → vs ≡ []
unfolding first_violation
first_violation-ok [] u h = refl
first_violation-ok (v ∷ vs) u h = cc

passed-ok : (t : Bool) (e : Error) (u : Unit {0}) → (if t then ok tt else err e) ≡ ok u → t ≡ true
passed-ok true e u h = refl
passed-ok false e u h = cc

validate-ok :
    (b : Bundle) (t : String) (v : Value) (u : Unit) → validate b t v ≡ ok u → b.accepts t v ≡ true
unfolding validate
validate-ok b t v u h = passed-ok (b.accepts t v) _ u h

ok-injective {ℓ} : {A : Type ℓ} (a c : A) → ok a ≡ ok c → a ≡ c
ok-injective a c h = cc

outcome_text-allow_iff : (o : Outcome) → (text (outcome_text o) ≡ text "allow") ↔ (o ≡ allow)
outcome_text-allow_iff deny = ((λ h. cc), λ h. cc)
outcome_text-allow_iff review_required = ((λ h. cc), λ h. cc)
outcome_text-allow_iff allow = ((λ h. refl), λ h. refl)

module _ (p : Platform) (b : Bundle) where
  issue-outcome :
      (r : Request) (verdict : Outcome × List String) (now : ℕ) (fields : Fields)
      → issue p b r verdict now ≡ ok fields
      → (get fields "outcome" ≡ text (outcome_text verdict.0))
        × (b.accepts "agent_action_policy_decision" (dict fields) ≡ true)
  unfolding issue
  issue-outcome r (o, codes) now fields h =
      let refs_of =
        unique_refs p []
          (uri_ref p b.authority_uri (text b.authority_digest) ∷ r.policy_profile_ref ∷ []) in
      let time = p.iso_text now in
      let (refs, _, h1) = bind-ok refs_of _ fields h in
      let (d1, _, h2) =
        bind-ok (digest p (dict (identity_onto p r (o, codes) refs time end))) _ fields h1 in
      let (d2, _, h3) =
        bind-ok (digest p (dict (content_projection (draft p r (o, codes) refs time d1)))) _ fields
          h2 in
      let final = with_digest d2 (draft p r (o, codes) refs time d1) in
      let (u, valid, h4) =
        bind-ok (validate b "agent_action_policy_decision" (dict final)) _ fields h3 in
      let e = ok-injective final fields h4 in
      subst
        (λ v.
          (get v "outcome" ≡ text (outcome_text o))
          × (b.accepts "agent_action_policy_decision" (dict v) ≡ true))
        e
        (
          unfold draft identity_onto with_digest get in refl,
          validate-ok b "agent_action_policy_decision" (dict final) u valid,
        )

  -- A decision is issued only for a request in the canonical domain that the request's schema accepts;
  -- the decision's schema accepts its record; and the record's outcome is "allow" exactly when the
  -- action is authorized at the decision time, in the window that the request names.
  pub evaluate_agent_action_request-fail_closed :
      (request current : Fields) (now : Now) (fields : Fields)
      → evaluate_agent_action_request p b (dict request) (dict current) now ≡ ok fields
      → (canonicalization_errors (dict request) [] ≡ [])
        × (b.accepts "agent_action_request" (dict request) ≡ true)
        × (b.accepts "agent_action_policy_decision" (dict fields) ≡ true)
        × (r : Request) × (requested_at : ℕ) × (expires_at : ℕ) × (time : ℕ) × (read_request request
            ≡ ok r)
        × (parse_timestamp b (get request "requested_at") "requested_at" ≡ ok requested_at)
        × (parse_timestamp b (get request "expires_at") "expires_at" ≡ ok expires_at)
        × (coerce_timestamp b now ≡ ok time)
        × ((get fields "outcome" ≡ text "allow")
            ↔ Authorized p b current r requested_at expires_at time)
  unfolding evaluate_agent_action_request evaluate_objects
  evaluate_agent_action_request-fail_closed request current now fields h =
      let (u, c, h1) =
        bind-ok (first_violation (canonicalization_errors (dict request) [])) _ fields h in
      let (v, s, h2) = bind-ok (validate b "agent_action_request" (dict request)) _ fields h1 in
      let (w, d, h3) = bind-ok (validate_content_digest p request) _ fields h2 in
      let (time, t, h4) = bind-ok (coerce_timestamp b now) _ fields h3 in
      let (q, qe, h5) =
        bind-ok (parse_timestamp b (get request "requested_at") "requested_at") _ fields h4 in
      let (e, ee, h6) =
        bind-ok (parse_timestamp b (get request "expires_at") "expires_at") _ fields h5 in
      let (r, re, h7) = bind-ok (read_request request) _ fields h6 in
      let (out, valid) = issue-outcome r (verdict_of p b current r q e time) time fields h7 in
      let (x, y) = outcome_text-allow_iff (verdict_of p b current r q e time).0 in
      let (f, g) = verdict_of-allow_iff p b current r q e time in
      (
        first_violation-ok (canonicalization_errors (dict request) []) u c,
        validate-ok b "agent_action_request" (dict request) v s,
        valid,
        r,
        q,
        e,
        time,
        re,
        qe,
        ee,
        t,
        ((λ a. f (x (sym out ∙ a))), λ a. out ∙ y (g a)),
      )
