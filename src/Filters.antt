-- ===== src/Filters.antt =====
-- Filters of listings: pkg/db/filter.go, with their queries, the parser and the statements of
-- pkg/db/db_gorm.
pub mod Requests
pub mod Parser
pub mod Checked
pub mod Parsed
pub mod RoundTrip
pub mod Sql
pub mod Texts
pub mod Statements
pub mod Unchecked
mod Tests
