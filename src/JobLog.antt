-- ===== src/JobLog.antt =====
-- Job logs, crates/gridops-core/src/job_log.rs: the parts of a line (Lines), the cleaned lines of a
-- log (Cleaning) and their steps and annotations (Steps). Texts are lists of characters.
pub mod Lines
pub mod Cleaning
pub mod Order
pub mod Steps
pub mod Annotations
pub mod Counted
pub mod Placed
pub mod Shown
pub mod Explained
