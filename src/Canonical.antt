-- ===== src/Canonical.antt =====
-- packages/control_fabric_core/src/control_fabric_core/canonical_json.py: the integer-only subset of
-- RFC 8785. Domain is what it accepts, Print its text and its digest, Total is about the
-- values that are printed, and Projection is the content that a digest is over.
pub mod Domain
pub mod Print
pub mod Total
pub mod Projection
