-- ===== src/Capabilities.antt =====
-- crates/gridops-core/src/fleet/capabilities.rs: what a backend reports, and whether it can take a
-- requirement. Identifiers are numbers, texts are strings, times are milliseconds.
pub mod Report
pub mod Evaluate
pub mod Static
pub mod Usable
pub mod Compatible
pub mod Decoded
