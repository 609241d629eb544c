-- ===== src/Agent/Model.antt =====
-- The errors of agent_action_policy.py, what it takes from elsewhere, and the parts of a request.
use workspace_governance_con.Prelude.{ℕ, Bool, Option, none, some, String, if◌then◌else◌}
use workspace_governance_con.Prelude.Text.{strip, is_empty}
use workspace_governance_con.Value.{Value, Fields, text, dict, find, get}
use workspace_governance_con.Canonical.Domain.{Violation}

pub data Error : Type 0 where
  request_not_object current_not_object : Error
  not_canonical : Violation → Error
  schema_rejects : String → Error
  digest_mismatch : Error
  not_a_date_time invalid_date_time no_timezone : String → Error
  missing : String → Error  -- a KeyError or TypeError
  not_printable : Error  -- the ValueError of canonical_digest

pub data Result {ℓ} (A : Type ℓ) : Type ℓ where
  ok : A → Result A
  err : Error → Result A

infixl 5 ◌>>=◌
abbrev pub ◌>>=◌ {ℓ κ} : {A : Type ℓ} {B : Type κ} → Result A → (A → Result B) → Result B
ok a >>= f = f a
err e >>= f = err e

-- `datetime.fromisoformat(value.replace("Z", "+00:00"))`, an aware time in microseconds UTC.
pub data Parsed : Type 0 where
  unparsable naive : Parsed
  aware : ℕ → Parsed

-- A loaded `AgentActionContractBundle`, the clock and the interpreter's float comparison.
pub record Bundle : Type 0 where
  pub authority_uri : String
  pub authority_digest : String
  pub accepts : String → Value → Bool  -- the JSON schema of an artifact type has no error
  pub parse : String → Parsed
  pub clock : ℕ
  pub float_eq : Value → Value → Bool

-- The argument `now`.
pub data Now : Type 0 where
  unset : Now
  instant : ℕ → Now
  naive_instant : Now
  written : String → Now

unfoldable pub validate : Bundle → String → Value → Result {0} Unit
validate b artifact_type artifact =
    if b.accepts artifact_type artifact then ok tt else err (schema_rejects artifact_type)

abbrev of_parsed : String → Parsed → Result ℕ
of_parsed name unparsable = err (invalid_date_time name)
of_parsed name naive = err (no_timezone name)
of_parsed name (aware t) = ok t

unfoldable pub parse_timestamp : Bundle → Value → String → Result ℕ
unfolding strip
parse_timestamp b (text s) name =
    if is_empty (strip s) then err (not_a_date_time name) else of_parsed name (b.parse s)
parse_timestamp b _ name = err (not_a_date_time name)

unfoldable pub coerce_timestamp : Bundle → Now → Result ℕ
unfolding parse_timestamp
coerce_timestamp b unset = ok b.clock
coerce_timestamp b (instant t) = ok t
coerce_timestamp b naive_instant = err (no_timezone "decision time")
coerce_timestamp b (written s) = parse_timestamp b (text s) "decision time"

-- `fields[key]`, and that of an object.
abbrev required : String → Option Value → Result Value
required k none = err (missing k)
required k (some v) = ok v

unfoldable pub item : Fields → String → Result Value
unfolding find
item fields k = required k (find fields k)

abbrev as_object : String → Value → Result Fields
as_object k (dict fs) = ok fs
as_object k _ = err (missing k)

unfoldable pub part : Fields → String → Result Fields
unfolding get
part fields k = as_object k (get fields k)

-- What the evaluation reads of a request.
pub record Request : Type 0 where
  pub action_class : Value
  pub request_id : Value
  pub requested_at : Value
  pub expires_at : Value
  pub principal_id : Value
  pub session_ref : Value
  pub acceptance_ref : Value
  pub workload_id : Value
  pub credential_binding_ref : Value
  pub instance_id : Value
  pub model_invocation_ref : Value
  pub workflow_id : Value
  pub workflow_version : Value
  pub execution_id : Value
  pub command : Value
  pub owner_repo : Value
  pub resource_id : Value
  pub source_version : Value
  pub packet_ref : Value
  pub receipt_ref : Value
  pub delegation_ref : Value
  pub policy_profile_ref : Value
  pub approval_ref : Value
  pub idempotency_key : Value
  pub intent_digest : Value
  pub content_digest : Value

-- The subscripts of the evaluation, which the schema's required keys allow, read at once.
unfoldable pub read_request : Fields → Result Request
unfolding item part get
read_request request = do
  operator ← part request "operator"
  caller ← part request "caller"
  agent ← part request "agent"
  workflow ← part request "workflow"
  target ← part request "target"
  context ← part request "context"
  authority ← part request "authority"
  intent ← part request "intent"
  integrity ← part request "integrity"
  action_class ← item request "action_class"
  request_id ← item request "request_id"
  expires_at ← item request "expires_at"
  principal_id ← item operator "principal_id"
  session_ref ← item operator "session_ref"
  acceptance_ref ← item operator "acceptance_ref"
  workload_id ← item caller "workload_id"
  credential_binding_ref ← item caller "credential_binding_ref"
  instance_id ← item agent "instance_id"
  workflow_id ← item workflow "workflow_id"
  workflow_version ← item workflow "workflow_version"
  execution_id ← item workflow "execution_id"
  command ← item workflow "command"
  owner_repo ← item target "owner_repo"
  resource_id ← item target "resource_id"
  source_version ← item target "source_version"
  delegation_ref ← item authority "delegation_ref"
  policy_profile_ref ← item authority "policy_profile_ref"
  approval_ref ← item authority "approval_ref"
  idempotency_key ← item request "idempotency_key"
  intent_digest ← item intent "digest"
  content_digest ← item integrity "content_digest"
  ok (record {
    action_class = action_class;
    request_id = request_id;
    requested_at = get request "requested_at";
    expires_at = expires_at;
    principal_id = principal_id;
    session_ref = session_ref;
    acceptance_ref = acceptance_ref;
    workload_id = workload_id;
    credential_binding_ref = credential_binding_ref;
    instance_id = instance_id;
    model_invocation_ref = get request "model_invocation_ref";
    workflow_id = workflow_id;
    workflow_version = workflow_version;
    execution_id = execution_id;
    command = command;
    owner_repo = owner_repo;
    resource_id = resource_id;
    source_version = source_version;
    packet_ref = get context "packet_ref";
    receipt_ref = get context "receipt_ref";
    delegation_ref = delegation_ref;
    policy_profile_ref = policy_profile_ref;
    approval_ref = approval_ref;
    idempotency_key = idempotency_key;
    intent_digest = intent_digest;
    content_digest = content_digest;
  })
