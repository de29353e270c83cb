-- ===== src/Output.antt =====
-- Runner output from a fleet machine to its log stream:
-- crates/gridops-core/src/fleet/registry/output.rs and crates/gridops-host-agent/src/output.rs.
pub mod Authority
pub mod Server
pub mod Stored
pub mod Appended
pub mod Answers
pub mod Agent
pub mod Sending
pub mod Covering
pub mod Finishing
pub mod Delivery
