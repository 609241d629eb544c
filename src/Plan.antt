-- ===== src/Plan.antt =====
-- packages/control_fabric_core/src/control_fabric_core/validation_planning.py: the plan of the checks
-- that a target calls for. Model holds its data, Path the paths, Targets and Scopes the target and its
-- scopes, Template the commands, Receipts and Reuse the reuse of receipts, Waivers the waivers, Policy
-- the execution policy, Checks one check, Rounds the loop, and Build the plan. The others are laws:
-- Relative and Reread of paths, Patterns of scopes, Authority, Reusable and Newest of receipts, Partition,
-- Coverage and Surface of the loop.
pub mod Path
pub mod Model
pub mod Targets
pub mod Scopes
pub mod Template
pub mod Receipts
pub mod Reuse
pub mod Policy
pub mod Waivers
pub mod Checks
pub mod Rounds
pub mod Build
pub mod Relative
pub mod Reread
pub mod Authority
pub mod Reusable
pub mod Newest
pub mod Partition
pub mod Coverage
pub mod Surface
pub mod Patterns
