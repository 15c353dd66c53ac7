-- ===== src/Scope.antt =====
-- internal/core/scope: the ten dimensions of an authorization and how one covers another.
pub mod Dimensions
pub mod Resources
pub mod Covering
pub mod Order
pub mod Resolver
pub mod Convergence
