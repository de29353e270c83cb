-- ===== src/Domain.antt =====
-- crates/gridops-core/src/fleet/domain.rs: domain values, lifecycle axes and legal transitions.
pub mod Kinds
pub mod Request
pub mod Amount
pub mod Transition
pub mod Host
pub mod Backend
pub mod Placement
pub mod Allocation
pub mod Target
