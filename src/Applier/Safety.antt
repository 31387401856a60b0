-- ===== src/Applier/Safety.antt =====
-- About the moves of file_ops.rs: where a document is while it is moved.
pub mod Laws
pub mod Rules
pub mod Blocks
pub mod Steps
pub mod Files
pub mod Rename
pub mod Copy
pub mod Finish
pub mod Start
pub mod Transfer
pub mod Verify
pub mod Recovery
pub mod Settle
pub mod Document
