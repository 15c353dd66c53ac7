-- ===== src/Trust.antt =====
-- internal/core/trust: what was learned from approvals.
pub mod Memories
pub mod Manager
pub mod Convergence
