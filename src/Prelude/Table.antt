-- ===== src/Prelude/Table.antt =====
-- A table as the list of its rows, and the statements that the SQL of crates/intern-core/src
-- is made of: UPDATE and DELETE with a WHERE clause, EXISTS, COUNT and SELECT with ORDER BY.
mod Defs
mod Laws
mod Order
mod Select
mod Unique
mod Sort
unfoldable pub use Defs.*
pub use Laws.*
pub use Unique.*
pub use Order.*
pub use Select.*
unfoldable pub use Sort.*
