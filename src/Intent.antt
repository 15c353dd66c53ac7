-- ===== src/Intent.antt =====
-- internal/core/intent: from a call to a structured intent.
pub mod Structured
pub mod Catalog
pub mod Resolver
pub mod Fields
pub mod Offered
pub mod Results
pub mod Panics
pub mod Places
pub mod Keys
