-- ===== src/Platform/Audit.antt =====
-- internal/platform/audit: what is written to the audit trail.
pub mod Redaction
pub mod Hiding
pub mod Recorder
pub mod Recording
pub mod Flat
