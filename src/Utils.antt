-- ===== src/Utils.antt =====
-- Helpers of pkg/utils.
pub mod Dates
pub mod Mask
