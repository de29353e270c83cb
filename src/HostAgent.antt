-- ===== src/HostAgent.antt =====
-- The host agent's commands: crates/gridops-host-agent/src/journal.rs and dispatch.rs.
pub mod Journal
pub mod Dispatch
pub mod Rows
pub mod Quiet
pub mod Once
pub mod Owned
pub mod Redelivered
