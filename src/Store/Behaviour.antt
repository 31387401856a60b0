-- ===== src/Store/Behaviour.antt =====
-- What the operations of the queue do, and what they refuse.
pub mod Spec
pub mod Swap
pub mod Queue
pub mod Lookup
pub mod Queries
pub mod Recovery
pub mod Abandoned
pub mod Atomic
pub mod Claim
pub mod Epoch
pub mod Enqueue
pub mod Failure
