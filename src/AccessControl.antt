-- ===== src/AccessControl.antt =====
-- pkg/access_control: access masks and the check of access by rules.
pub mod Mask
pub mod Check
mod Tests
