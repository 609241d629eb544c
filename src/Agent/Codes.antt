-- ===== src/Agent/Codes.antt =====
-- The comparisons of agent_action_policy.py and the codes that they collect.
use workspace_governance_con.Prelude.{
  ℕ, Bool, true, false, ◌&&◌, List, [], ◌∷◌, ◌++◌, String, ltb, leb, contains, if◌then◌else◌,
}
use workspace_governance_con.Value.{Value, Items, Fields, null, list, dict, nil, cons, get, is_null}
use workspace_governance_con.Agent.Model.{Bundle, Result, ok, err, Request, parse_timestamp}
use workspace_governance_con.Equality.{value_eq, member}

pub record Codes : Type 0 where
  pub deny : List String
  pub review : List String

abbrev pub no_codes : Codes
no_codes = record { deny = []; review = [] }

abbrev pub add_deny : String → Codes → Codes
add_deny code c = record c { deny = c.deny ++ code ∷ [] }

abbrev pub add_review : String → Codes → Codes
add_review code c = record c { review = c.review ++ code ∷ [] }

-- A call of `_compare_binding`, or of `_compare_optional_binding` where it is optional.
pub record Binding : Type 0 where
  pub optional : Bool
  pub requested : Value
  pub key : String
  pub unverified : String
  pub mismatch : String

abbrev must : Value → String → String → String → Binding
must requested key unverified mismatch = record {
  optional = false;
  requested = requested;
  key = key;
  unverified = unverified;
  mismatch = mismatch;
}

abbrev may : Value → String → String → String → Binding
may requested key unverified mismatch = record {
  optional = true;
  requested = requested;
  key = key;
  unverified = unverified;
  mismatch = mismatch;
}

-- The window of the request.
unfoldable pub window : ℕ → ℕ → ℕ → Codes → Codes
window requested_at expires_at now c =
    if leb expires_at requested_at
    then add_deny "invalid-request-window" c
    else if ltb now requested_at
    then add_deny "request-not-yet-current" c
    else if leb expires_at now
    then add_deny "request-expired" c
    else c

abbrev pub actor_bindings : Request → List Binding
actor_bindings r =
    must r.principal_id "operator_principal_id" "operator-identity-unverified"
      "operator-identity-mismatch"
    ∷ must r.session_ref "operator_session_ref" "operator-session-unverified"
        "operator-session-stale"
    ∷ must r.acceptance_ref "operator_acceptance_ref" "operator-acceptance-unverified"
        "operator-acceptance-mismatch"
    ∷ must r.workload_id "caller_workload_id" "caller-identity-unverified"
        "caller-identity-mismatch"
    ∷ must r.credential_binding_ref "caller_credential_binding_ref" "caller-credential-unverified"
        "caller-credential-stale"
    ∷ must r.instance_id "agent_instance_id" "agent-instance-unverified" "agent-instance-stale"
    ∷ may r.model_invocation_ref "model_invocation_ref" "model-invocation-unverified"
        "model-invocation-mismatch"
    ∷ must r.workflow_id "workflow_id" "workflow-admission-unverified" "workflow-not-admitted"
    ∷ must r.workflow_version "workflow_version" "workflow-version-unverified"
        "workflow-version-mismatch"
    ∷ []

abbrev pub target_bindings : Request → List Binding
target_bindings r =
    must r.owner_repo "target_owner_repo" "target-owner-unverified" "target-owner-mismatch"
    ∷ must r.resource_id "target_resource_id" "target-resource-unverified"
        "target-resource-mismatch"
    ∷ must r.source_version "source_version" "source-version-unverified" "source-version-mismatch"
    ∷ may r.packet_ref "context_packet_ref" "context-packet-unverified" "context-packet-mismatch"
    ∷ may r.receipt_ref "context_receipt_ref" "context-receipt-unverified"
        "context-receipt-mismatch"
    ∷ must r.delegation_ref "delegation_ref" "delegation-unverified" "delegation-mismatch"
    ∷ must r.policy_profile_ref "policy_profile_ref" "policy-profile-unverified"
        "policy-profile-mismatch"
    ∷ []

abbrev pub approval_binding : Request → Binding
approval_binding r = must r.approval_ref "approval_ref" "approval-unverified" "approval-mismatch"

module _ (b : Bundle) (current : Fields) where
  -- `_compare_binding` and `_compare_optional_binding`
  unfoldable pub compare_binding : Binding → Codes → Codes
  unfolding value_eq get is_null
  compare_binding x c =
      let now = get current x.key in
      if x.optional && is_null x.requested
      then c
      else if is_null now
      then add_review x.unverified c
      else if value_eq b.float_eq now x.requested
      then c
      else add_deny x.mismatch c

  unfoldable pub compare_all : List Binding → Codes → Codes
  unfolding compare_binding
  compare_all [] c = c
  compare_all (x ∷ xs) c = compare_all xs (compare_binding x c)

  unfoldable pub command_among : Value → Value → Codes → Codes
  unfolding member
  command_among command (list vs) c =
      if member b.float_eq command vs then c else add_deny "workflow-command-not-admitted" c
  command_among command _ c = add_review "workflow-command-admission-unverified" c

  abbrev pub expiry_within : Result ℕ → ℕ → Codes → Codes
  expiry_within (err e) now c = add_deny "approval-expiry-invalid" c
  expiry_within (ok t) now c = if leb t now then add_deny "approval-expired" c else c

  unfoldable pub approval_expiry : Value → ℕ → Codes → Codes
  unfolding parse_timestamp
  approval_expiry null now c = add_review "approval-expiry-unverified" c
  approval_expiry v now c = expiry_within (parse_timestamp b v "approval_expires_at") now c

  -- The approval, of a mutation.
  unfoldable pub approval : Bool → Request → ℕ → Codes → Codes
  unfolding compare_binding approval_expiry get
  approval mutates r now c =
      if mutates
      then approval_expiry (get current "approval_expires_at") now
          (compare_binding (approval_binding r) c)
      else c

  abbrev pub key_equal : Value → Value → Bool
  key_equal (dict entry) key = value_eq b.float_eq (get entry "idempotency_key") key
  key_equal _ key = false

  unfoldable pub intent_equal : Value → Value → Bool
  unfolding value_eq get
  intent_equal (dict entry) digest = value_eq b.float_eq (get entry "intent_digest") digest
  intent_equal _ digest = false

  unfoldable pub consumed_among : Request → Items → Codes → Codes
  unfolding intent_equal value_eq get
  consumed_among r nil c = c
  consumed_among r (cons v vs) c =
      if key_equal v r.idempotency_key
      then (if intent_equal v r.intent_digest
          then add_deny "idempotency-key-consumed" c
          else add_deny "idempotency-intent-conflict" c)
      else consumed_among r vs c

  unfoldable pub idempotency : Request → Value → Codes → Codes
  unfolding consumed_among
  idempotency r (list vs) c = consumed_among r vs c
  idempotency r _ c = add_review "idempotency-state-unverified" c

  -- The codes of one evaluation, in the order in which they are collected.
  unfoldable pub codes_of : Request → Bool → ℕ → ℕ → ℕ → Codes
  unfolding window compare_all command_among approval idempotency get
  codes_of r mutates requested_at expires_at now =
      let actors = compare_all (actor_bindings r) (window requested_at expires_at now no_codes) in
      let commands = command_among r.command (get current "admitted_commands") actors in
      let targets = compare_all (target_bindings r) commands in
      idempotency r (get current "consumed_idempotency") (approval mutates r now targets)

unfoldable pub unique_from : List String → List String → List String
unfolding contains
unique_from seen [] = []
unique_from seen (x ∷ xs) =
    let rest = unique_from seen xs in
    let rest' = unique_from (x ∷ seen) xs in if contains x seen then rest else x ∷ rest'

-- `list(dict.fromkeys(values))`
unfoldable pub unique : List String → List String
unfolding unique_from
unique values = unique_from [] values
