-- ===== src/Pipeline.antt =====
-- internal/core/pipeline: from a request to a refusal, a question or a lease.
pub mod Requests
pub mod Calls
pub mod Services
pub mod Inputs
pub mod Resolving
pub mod Handling
pub mod Protocol
pub mod Runs
pub mod Resolution
pub mod Turns
pub mod Steps
pub mod Endings
pub mod Order
pub mod Safety
pub mod Settling
pub mod Settled
pub mod Answers
pub mod Records
pub mod Cascades
pub mod Revoked
pub mod Cascading
pub mod Expiring
pub mod Tracks
pub mod Revocations
