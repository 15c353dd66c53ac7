-- ===== src/Lease.antt =====
-- internal/core/lease and its rows in internal/store.
pub mod Rows
pub mod Statements
pub mod Repository
pub mod Updates
pub mod Changes
pub mod Evolution
pub mod Counting
pub mod Issue
pub mod Manager
pub mod Use
pub mod RoundTrip
