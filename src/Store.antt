-- ===== src/Store.antt =====
-- crates/intern-core/src/store.rs: the durable queue.
pub mod Db
pub mod Tx
pub mod Session
pub mod Queue
pub mod Applying
pub mod Reconcile
pub mod Journal
pub mod Queries
pub mod Runs
pub mod Plans
pub mod Invariant
pub mod Behaviour
