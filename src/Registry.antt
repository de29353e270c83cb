-- ===== src/Registry.antt =====
-- The host registry's commands, crates/gridops-core/src/fleet/registry.
pub mod Rows
pub mod Tables
pub mod Placements
pub mod Results
pub mod Delivery
pub mod Settlement
pub mod Observation
pub mod Handshake
pub mod Histories
pub mod Absence
pub mod Finality
