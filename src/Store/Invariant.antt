-- ===== src/Store/Invariant.antt =====
-- What holds of the queue database between any two operations.
pub mod Defs
pub mod Rules
pub mod Queue
pub mod Claims
pub mod Applying
pub mod Receipts
pub mod Rows
pub mod Sessions
pub mod Binding
pub mod Reachable
