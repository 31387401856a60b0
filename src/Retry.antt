-- ===== src/Retry.antt =====
-- crates/intern-core/src/file_ops.rs: how long a file operation waits out another process's lock.
pub mod Defs
pub mod Laws
pub mod Stateful
