-- ===== src/Agent.antt =====
-- packages/control_fabric_core/src/control_fabric_core/agent_action_policy.py: the evaluation of one
-- agent action against the current bindings. Model holds the request and the errors, Codes the
-- comparisons and the codes that they collect, Decide the decision, Run its event in the ledger;
-- Clean, Verdict, Issue and Ledger are about them.
pub mod Model
pub mod Codes
pub mod Decide
pub mod Run
pub mod Clean
pub mod Verdict
pub mod Issue
pub mod Ledger
