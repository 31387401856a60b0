-- ===== src/Receipt.antt =====
-- crates/intern-core/src/file_ops.rs: the receipt that journals a file operation.
mod Defs
mod Laws
unfoldable pub use Defs.*
pub use Laws.*
