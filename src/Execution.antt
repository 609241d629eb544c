-- ===== src/Execution.antt =====
-- packages/control_fabric_core/src/control_fabric_core/validation_execution.py: the execution of the
-- checks of a plan. Model holds its data, Command the parsing of a command, Safety what blocks one,
-- Attempts the retries, Run the results of the checks, Outcome that of the receipt, and Event its event.
-- Bounded, Places, Blocks, Safe, Guarded, Finished and Composed are laws.
pub mod Model
pub mod Command
pub mod Safety
pub mod Attempts
pub mod Run
pub mod Outcome
pub mod Event
pub mod Bounded
pub mod Places
pub mod Blocks
pub mod Safe
pub mod Guarded
pub mod Finished
pub mod Composed
