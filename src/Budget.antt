-- ===== src/Budget.antt =====
-- packages/control_fabric_core/src/control_fabric_core/performance_budgets.py: the budget contracts
-- (Table, Resolve), the evaluation of an operation (Decide), the caps on an execution policy (Limits)
-- and pagination (Pages). The laws are in Contracts, Verdict, Caps and Walk.
pub mod Table
pub mod Resolve
pub mod Decide
pub mod Limits
pub mod Pages
pub mod Contracts
pub mod Verdict
pub mod Caps
pub mod Walk
