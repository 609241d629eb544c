-- ===== src/Manifest.antt =====
-- packages/control_fabric_core/src/control_fabric_core/manifests.py: the validation of a governance
-- manifest before it is read. Sections is the table of what a section requires, Validate the checks,
-- Spec says what a manifest is, and Valid, Required and Accepted prove that the checks accept those.
pub mod Sections
pub mod Validate
pub mod Spec
pub mod Valid
pub mod Required
pub mod Accepted
