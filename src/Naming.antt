-- ===== src/Naming.antt =====
-- crates/intern-engine/src/naming.rs: the segments of a filename, and their composition.
pub mod Segment
pub mod Clean
pub mod Fit
pub mod Bounds
