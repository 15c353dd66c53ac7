-- ===== src/Agent.antt =====
-- internal/core/agentauth: who is calling.
pub mod Identity
pub mod Rows
pub mod Tables
pub mod Store
pub mod Devices
pub mod Agents
pub mod Registration
pub mod Register
pub mod Service
pub mod Soundness
pub mod Calls
pub mod Keeping
pub mod Invariant
pub mod Evolution
pub mod Inversion
pub mod Admission
pub mod Refusal
pub mod Binding
pub mod Session
pub mod Standing
