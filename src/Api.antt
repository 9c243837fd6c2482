-- ===== src/Api.antt =====
-- Resources and operations of pkg/api/resource.go and pkg/api/operation.go.
pub mod Resources
pub mod Operations
mod Tests
