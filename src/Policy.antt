-- ===== src/Policy.antt =====
-- packages/control_fabric_core/src/control_fabric_core/policy_admission.py: the records (Model), the
-- readers of a request (Read), the checks (Checks) and the evaluation (Evaluate). The laws are in
-- Flags, Admissible, Verdict, Decision and Actions.
pub mod Model
pub mod Read
pub mod Checks
pub mod Evaluate
pub mod Flags
pub mod Admissible
pub mod Verdict
pub mod Decision
pub mod Actions
