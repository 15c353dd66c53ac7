-- ===== src/Platform.antt =====
-- internal/platform: what the other packages share.
pub mod AppError
pub mod Audit
