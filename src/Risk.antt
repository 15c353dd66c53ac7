-- ===== src/Risk.antt =====
-- internal/core/risk: the levels, the factors and the rule table.
pub mod Level
pub mod Factors
pub mod Engine
pub mod Bounds
pub mod Order
