-- ===== src/Approval.antt =====
-- internal/core/approval: what a user's answer to an approval item brings about.
pub mod Items
pub mod Manager
pub mod Settling
