-- ===== src/Applier.antt =====
-- crates/intern-core/src/file_ops.rs: `FileApplier`, the journalled moves of files.
pub mod World
pub mod Failure
pub mod Transfer
pub mod Copy
pub mod Entry
pub mod Choice
pub mod Undo
pub mod Reconcile
pub mod Safety
