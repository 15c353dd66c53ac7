-- ===== src/Examples.antt =====
-- Tests and sample runs of the parts.
pub mod Samples
pub mod Decisions
pub mod Scopes
pub mod Matches
pub mod Risks
pub mod Leases
pub mod Gateways
pub mod Approvals
pub mod Intents
pub mod Agents
pub mod Audits
pub mod Memories
pub mod Services
pub mod Pipelines
pub mod Cascades
