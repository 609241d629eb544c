-- ===== src/Examples/Agents.antt =====
-- The theorems about agent_action_policy.py at a request that is accepted.
use workspace_governance_con.Prelude.{ℕ, ◌≡◌, refl, ◌↔◌, true, false, [], ◌∷◌, if◌then◌else◌}
use workspace_governance_con.Prelude.Text.{first_characters, remove_prefix}
use workspace_governance_con.Value.{Value, Fields, null, text, list, dict, nil, end, field, get}
use workspace_governance_con.Platform.{silent}
use workspace_governance_con.Canonical.Domain.{canonicalization_errors}
use workspace_governance_con.Agent.Model.{
  Result, ok, err, Bundle, aware, instant, Request, read_request, parse_timestamp, coerce_timestamp,
}
use workspace_governance_con.Agent.Decide.{allow, verdict_of, evaluate_agent_action_request}
use workspace_governance_con.Agent.Verdict.{Authorized, verdict_of-allow_iff}
use workspace_governance_con.Retention.Disk.{FilePath, Disk, Host, other, write, path_eq}
use workspace_governance_con.Agent.Run.{
  build_agent_action_policy_ledger_event, run_agent_action_evaluation,
}
use workspace_governance_con.Agent.Ledger.{Appended, run_agent_action_evaluation-Appended}
use workspace_governance_con.Agent.Issue.{evaluate_agent_action_request-fail_closed}

abbrev bundle : Bundle
bundle = record {
  authority_uri = "workspace://authority";
  authority_digest = "sha256:0";
  accepts = λ t v. true;
  parse = λ s. aware 5;
  clock = 5;
  float_eq = λ v w. false;
}

abbrev content_digest : Value
content_digest = text "sha256:e3b0c44298fc1c149afbf4c8996fb92427ae41e4649b934ca495991b7852b855"

abbrev request : Fields
request = field "action_class" (text "read") (
    field "request_id" (text "agent-action-request:1") (
      field "requested_at" (text "2026-01-01T00:00:00Z") (
        field "expires_at" (text "2026-01-02T00:00:00Z") (
          field "operator"
            (dict (
              field "principal_id" (text "o")
                (field "session_ref" (text "s") (field "acceptance_ref" (text "a") end))))
            (field "caller"
              (dict
                (field "workload_id" (text "w") (field "credential_binding_ref" (text "c") end)))
              (field "agent" (dict (field "instance_id" (text "i") end)) (
                field "workflow"
                  (dict (
                    field "workflow_id" (text "f") (
                      field "workflow_version" (text "1")
                        (field "execution_id" (text "e") (field "command" (text "run") end)))))
                  (field "target"
                    (dict (
                      field "owner_repo" (text "r")
                        (field "resource_id" (text "x") (field "source_version" (text "2") end))))
                    (field "context" (dict end) (
                      field "authority"
                        (dict (
                          field "delegation_ref" (text "d") (
                            field "policy_profile_ref" (text "p") (field "approval_ref" null end))))
                        (field "intent" (dict (field "digest" (text "n") end)) (
                          field "idempotency_key" (text "k") (
                            field "integrity" (dict (field "content_digest" content_digest end))
                              end)))))))))))))

abbrev current : Fields
current = field "operator_principal_id" (text "o") (field "consumed_idempotency" (list nil) end)

abbrev value_of : Result Fields → Fields
value_of (ok fields) = fields
value_of (err e) = end

abbrev issued_record : Fields
issued_record =
    value_of (evaluate_agent_action_request silent bundle (dict request) (dict current) (instant 5))

abbrev read : Request
read = record {
  action_class = text "read";
  request_id = null;
  requested_at = null;
  expires_at = null;
  principal_id = text "o";
  session_ref = null;
  acceptance_ref = null;
  workload_id = null;
  credential_binding_ref = null;
  instance_id = null;
  model_invocation_ref = null;
  workflow_id = null;
  workflow_version = null;
  execution_id = null;
  command = text "run";
  owner_repo = null;
  resource_id = null;
  source_version = null;
  packet_ref = null;
  receipt_ref = null;
  delegation_ref = null;
  policy_profile_ref = null;
  approval_ref = null;
  idempotency_key = text "k";
  intent_digest = null;
  content_digest = null;
}

verdict_of-allow_iff_example :
    ((verdict_of silent bundle current read 3 9 5).0 ≡ allow)
    ↔ Authorized silent bundle current read 3 9 5
verdict_of-allow_iff_example = verdict_of-allow_iff silent bundle current read 3 9 5

evaluate_agent_action_request-fail_closed_example :
    (canonicalization_errors (dict request) [] ≡ [])
    × (bundle.accepts "agent_action_request" (dict request) ≡ true)
    × (bundle.accepts "agent_action_policy_decision" (dict issued_record) ≡ true)
    × (r : Request) × (requested_at : ℕ) × (expires_at : ℕ) × (time : ℕ) × (read_request request
        ≡ ok r)
    × (parse_timestamp bundle (get request "requested_at") "requested_at" ≡ ok requested_at)
    × (parse_timestamp bundle (get request "expires_at") "expires_at" ≡ ok expires_at)
    × (coerce_timestamp bundle (instant 5) ≡ ok time)
    × ((get issued_record "outcome" ≡ text "allow")
        ↔ Authorized silent bundle current r requested_at expires_at time)
unfolding evaluate_agent_action_request first_characters remove_prefix
evaluate_agent_action_request-fail_closed_example =
    evaluate_agent_action_request-fail_closed silent bundle request current (instant 5)
      issued_record refl

abbrev host : Host
host = record {
  resolve = λ p. if path_eq p ("link" ∷ []) then "repo" ∷ "ledger.jsonl" ∷ [] else p;
  kind = λ p. other;
  writes = λ p. true;
  unlinks = λ p. true;
  encode = λ s. 123 ∷ [];
  sha256_bytes = λ b. "";
}

-- The place of the ledger, which "link" is a link to.
abbrev ledger : FilePath
ledger = "repo" ∷ "ledger.jsonl" ∷ []

abbrev disk : Disk
disk = record { path = ledger; modified = 1; content = 97 ∷ 10 ∷ [] } ∷ []

abbrev event_in : Result Value → Value
event_in (ok event) = event
event_in (err e) = null

abbrev event : Value
event = event_in (build_agent_action_policy_ledger_event silent "operator" issued_record)

abbrev after : Disk
after = write host ledger (97 ∷ 10 ∷ 123 ∷ 10 ∷ []) 7 disk

run_agent_action_evaluation-Appended_example :
    (evaluate_agent_action_request silent bundle (dict request) (dict current) (instant 5)
      ≡ ok issued_record)
    × (build_agent_action_policy_ledger_event silent "operator" issued_record ≡ ok event)
    × Appended silent host bundle ("link" ∷ []) 7 disk (unfold path_eq in refl) event after
unfolding run_agent_action_evaluation path_eq
run_agent_action_evaluation-Appended_example =
    run_agent_action_evaluation-Appended silent host bundle ("link" ∷ []) 7 disk refl (dict request)
      (dict current) "operator" (instant 5) issued_record event after refl
