-- ===== src/Retention.antt =====
-- packages/control_fabric_core/src/control_fabric_core/lifecycle.py: the retention of local artifacts,
-- receipts and the ledger. The disk is in Disk, the lines of a ledger in Lines, the plan in Candidates
-- and Plan, the two mutations in Effects and the application in Apply. The laws are in Store,
-- Compaction, Survivors, Deletions, Kept and Safety.
pub mod Disk
pub mod Lines
pub mod Model
pub mod Candidates
pub mod Payload
pub mod Plan
pub mod Effects
pub mod Apply
pub mod Store
pub mod Compaction
pub mod Survivors
pub mod Deletions
pub mod Kept
pub mod Safety
