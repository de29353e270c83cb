-- ===== src/Protocol.antt =====
-- Contract types of crates/gridops-core/src/fleet/protocol: bounded integers, deployment limits,
-- authority renewal, transfer chunks and the results of commands.
pub mod Primitives
pub mod Limits
pub mod Renewal
pub mod Chunks
pub mod Outcomes
