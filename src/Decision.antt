-- ===== src/Decision.antt =====
-- internal/core/decision: the decision engine.
pub mod Verdicts
pub mod Forbidden
pub mod FailClosed
pub mod Engine
pub mod Words
pub mod AutoAllow
pub mod Modes
pub mod Closed
pub mod Confirmations
pub mod FromMatcher
