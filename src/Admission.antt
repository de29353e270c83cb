-- ===== src/Admission.antt =====
-- crates/gridops-core/src/fleet/admission.rs: the transactional placement of work on the resource
-- domains of a host.
pub mod Store
pub mod Path
pub mod Fit
