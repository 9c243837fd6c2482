-- ===== src/Pool.antt =====
-- Pools of services: pkg/pool.
pub mod Store
pub mod Controller
pub mod Bindings
pub mod Stores
pub mod Loading
pub mod Bound
pub mod Calls
pub mod Consistency
pub mod Changes
pub mod Laws
pub mod Errors
mod Tests
