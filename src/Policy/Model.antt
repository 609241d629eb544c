-- ===== src/Policy/Model.antt =====
-- The records of policy_admission.py and their outcomes.
use workspace_governance_con.Prelude.{ℕ, Option, List, ◌∷◌, [], String}

pub data Severity : Type 0 where
  deny block review waive : Severity

pub data Outcome : Type 0 where
  deny blocked review_required waived allow : Outcome

pub record PolicyReason : Type 0 where
  pub code : String
  pub detail : String
  pub severity : Severity

pub record AuthorityRef : Type 0 where
  pub authority_id : String
  pub digest : Option String
  pub freshness_status : String

pub record ReceiptRef : Type 0 where
  pub digest : String
  pub receipt_id : String
  pub outcome : Option String

pub record Waiver : Type 0 where
  pub authority_ref_id : String
  pub expires_at : String
  pub reason : String
  pub waiver_id : String

pub record PolicyDecision : Type 0 where
  pub authority_refs : List AuthorityRef
  pub decision_id : String
  pub decision_time : String
  pub outcome : Outcome
  pub profile_id : String
  pub reasons : List PolicyReason
  pub receipt_refs : List ReceiptRef
  pub required_actions : List String
  pub schema_version : ℕ
  pub subject_id : String
  pub subject_type : String
  pub target : String
  pub waiver : Option Waiver

abbrev pub supported_subject_types : List String
supported_subject_types = "component" ∷ "repo" ∷ []

abbrev pub successful_receipt_outcomes : List String
successful_receipt_outcomes = "success" ∷ "passed" ∷ "valid" ∷ "allow" ∷ "allowed" ∷ []

abbrev pub failed_receipt_outcomes : List String
failed_receipt_outcomes = "blocked" ∷ "denied" ∷ "deny" ∷ "failure" ∷ "failed" ∷ []

abbrev pub policy_decision_schema_version : ℕ
policy_decision_schema_version = 1
