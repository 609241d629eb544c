-- ===== src/Agent/Decide.antt =====
-- `evaluate_agent_action_request` of agent_action_policy.py.
use workspace_governance_con.Prelude.{
  ℕ, Bool, false, ◌==◌, Option, none, some, List, [], ◌∷◌, ◌++◌, String, str_eq, contains,
  if◌then◌else◌,
}
use workspace_governance_con.Prelude.Int.{pos}
use workspace_governance_con.Prelude.Text.{first_characters, remove_prefix}
use workspace_governance_con.Value.{
  Value, Fields, int, text, list, dict, end, field, get, texts, from_list,
}
use workspace_governance_con.Platform.{Platform, str}
use workspace_governance_con.Canonical.Domain.{Violation, canonicalization_errors}
use workspace_governance_con.Canonical.Print.{canonical_digest}
use workspace_governance_con.Canonical.Projection.{content_projection, with_digest}
use workspace_governance_con.Agent.Model.{
  request_not_object, current_not_object, not_canonical, digest_mismatch, not_printable, Result, ok,
  err, ◌>>=◌, Bundle, Now, validate, parse_timestamp, coerce_timestamp, part, Request, read_request,
}
use workspace_governance_con.Agent.Codes.{codes_of, unique}
use Prim.Native.Char.{code}
use Prim.Native.String.{◌++◌ as ◌<>◌}

pub data Outcome : Type 0 where
  deny review_required allow : Outcome

abbrev pub outcome_text : Outcome → String
outcome_text deny = "deny"
outcome_text review_required = "review-required"
outcome_text allow = "allow"

-- The outcome and its reason codes.
unfoldable pub decided : List String → List String → Outcome × List String
decided (d ∷ ds) review = (deny, (d ∷ ds) ++ review)
decided [] (r ∷ rs) = (review_required, r ∷ rs)
decided [] [] = (allow, "authority-bindings-current" ∷ "owner-workflow-admitted" ∷ [])

-- `value.split(":", 1)[-1]`
after_colon : String → Option String
after_colon String.[] = none
after_colon (String.◌∷◌ c s) = if code c == 58 then some s else after_colon s

request_token : String → String
unfolding after_colon
request_token s = elim (after_colon s) [ none ↦ s | some rest ↦ rest ]

unfoldable pub first_violation : List Violation → Result {0} Unit
first_violation [] = ok tt
first_violation (v ∷ _) = err (not_canonical v)

abbrev printable : Option String → Result String
printable none = err not_printable
printable (some s) = ok s

abbrev is_text : String → Value → Bool
is_text expected (text s) = str_eq s expected
is_text expected _ = false

module _ (p : Platform) where
  unfoldable pub digest : Value → Result String
  unfolding canonical_digest
  digest v = printable (canonical_digest p v)

  digest_matches : Value → String → Result {0} Unit
  digest_matches actual expected = if is_text expected actual then ok tt else err digest_mismatch

  -- `_validate_content_digest`
  unfoldable pub validate_content_digest : Fields → Result {0} Unit
  unfolding digest digest_matches content_projection part get
  validate_content_digest artifact = do
    integrity ← part artifact "integrity"
    expected ← digest (dict (content_projection artifact))
    digest_matches (get integrity "content_digest") expected

  -- `_unique_refs`
  unfoldable pub unique_refs : List String → List Value → Result (List Value)
  unfolding digest contains
  unique_refs seen [] = ok []
  unique_refs seen (v ∷ vs) = do
    key ← digest v
    let dropped = unique_refs seen vs
    let kept = unique_refs (key ∷ seen) vs >>= λ rest. ok (v ∷ rest)
    if contains key seen then dropped else kept

  abbrev pub uri_ref : String → Value → Value
  uri_ref uri d = dict (field "uri" (text uri) (field "digest" d end))

  abbrev base_obligations : List String
  base_obligations =
      "record-terminal-action-receipt" ∷ "require-current-source-version"
      ∷ "deny-raw-context-projection" ∷ []

  abbrev mutate_obligations : List String
  mutate_obligations =
      "require-exact-operator-approval" ∷ "require-owner-receipt-after-invocation" ∷ []

  abbrev pub mutates : Request → Bool
  unfolding str
  mutates r = str_eq (str p r.action_class) "mutate"

  unfoldable pub obligations_of : Bool → List String
  obligations_of is_mutation =
      if is_mutation then base_obligations ++ mutate_obligations else base_obligations

  bindings_of : Request → Value
  bindings_of r = dict (
      field "operator_principal_id" r.principal_id (
        field "operator_session_ref" r.session_ref (
          field "caller_workload_id" r.workload_id (
            field "agent_instance_id" r.instance_id (
              field "workflow_execution_id" r.execution_id (
                field "target_owner_repo" r.owner_repo (
                  field "target_resource_id" r.resource_id (
                    field "source_version" r.source_version
                      (field "approval_ref" r.approval_ref end)))))))))

  -- The entries of the identity projection, in front of others.
  unfoldable pub identity_onto :
      Request → Outcome × List String → List Value → String → Fields → Fields
  unfolding bindings_of obligations_of mutates request_token str texts from_list
  identity_onto r (outcome, reason_codes) refs decided_at rest =
      field "request_ref"
        (uri_ref ("wgcf://agent-actions/requests/" <> request_token (str p r.request_id))
          r.content_digest)
        (field "action_class" (text (str p r.action_class)) (
          field "outcome" (text (outcome_text outcome)) (
            field "reason_codes" (texts reason_codes) (
              field "obligations" (texts (obligations_of (mutates r))) (
                field "decided_at" (text decided_at) (
                  field "expires_at" r.expires_at (
                    field "bindings" (bindings_of r)
                      (field "policy_refs" (list (from_list refs)) rest))))))))

  integrity_of : Value
  integrity_of = dict (
      field "canonicalization" (text "RFC8785")
        (field "algorithm" (text "sha256") (field "content_digest" (text "") end)))

  -- The record before its content digest is written.
  unfoldable pub draft : Request → Outcome × List String → List Value → String → String → Fields
  unfolding identity_onto integrity_of
  draft r verdict refs decided_at identity_digest = field "schema_version" (int (pos 1)) (
      field "artifact_type" (text "agent_action_policy_decision") (
        field "decision_id"
          (text (
            "agent-action-decision:"
            <> first_characters 24 (remove_prefix "sha256:" identity_digest)))
          (identity_onto r verdict refs decided_at (field "integrity" integrity_of end))))

  module _ (b : Bundle) where
    -- The decision's record, which its own schema accepts.
    unfoldable pub issue : Request → Outcome × List String → ℕ → Result Fields
    unfolding unique_refs digest identity_onto draft content_projection with_digest validate
    issue r verdict now = do
      refs ←
          unique_refs []
            (uri_ref b.authority_uri (text b.authority_digest) ∷ r.policy_profile_ref ∷ [])
      let time = p.iso_text now
      identity_digest ← digest (dict (identity_onto r verdict refs time end))
      let record_draft = draft r verdict refs time identity_digest
      content_digest ← digest (dict (content_projection record_draft))
      let record_final = with_digest content_digest record_draft
      _ ← validate b "agent_action_policy_decision" (dict record_final)
      ok record_final

    unfoldable pub verdict_of : Fields → Request → ℕ → ℕ → ℕ → Outcome × List String
    unfolding decided unique codes_of mutates
    verdict_of current r requested_at expires_at now =
        let c = codes_of b current r (mutates r) requested_at expires_at now in
        decided (unique c.deny) (unique c.review)

    unfoldable pub evaluate_objects : Fields → Fields → Now → Result Fields
    unfolding first_violation canonicalization_errors validate validate_content_digest
        coerce_timestamp parse_timestamp read_request verdict_of issue get
    evaluate_objects request current now = do
      _ ← first_violation (canonicalization_errors (dict request) [])
      _ ← validate b "agent_action_request" (dict request)
      _ ← validate_content_digest request
      decision_time ← coerce_timestamp b now
      requested_at ← parse_timestamp b (get request "requested_at") "requested_at"
      expires_at ← parse_timestamp b (get request "expires_at") "expires_at"
      r ← read_request request
      issue r (verdict_of current r requested_at expires_at decision_time) decision_time

    unfoldable pub evaluate_agent_action_request : Value → Value → Now → Result Fields
    unfolding evaluate_objects
    evaluate_agent_action_request (dict request) (dict current) now =
        evaluate_objects request current now
    evaluate_agent_action_request (dict request) _ now = err current_not_object
    evaluate_agent_action_request _ _ now = err request_not_object
