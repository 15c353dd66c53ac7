-- ===== src/Matcher.antt =====
-- internal/core/matcher: from a request to one identity.
pub mod Identity
pub mod Matching
pub mod Selection
pub mod Results
pub mod Priority
