-- ===== src/Domain.antt =====
-- crates/intern-core/src/domain.rs and error.rs: the states of a queue item and the error codes,
-- with the spellings under which the database keeps them.
mod Laws
pub mod Error
mod Defs
pub use Laws.*
unfoldable pub use Defs.*
