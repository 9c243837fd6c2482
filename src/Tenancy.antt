-- ===== src/Tenancy.antt =====
-- Tenancies: pkg/multitenancy/tenancy_manager.
pub mod Store
pub mod Controller
pub mod Steps
pub mod Laws
pub mod Loading
pub mod Entries
pub mod Agreement
pub mod Loaded
pub mod Startup
mod Tests
