-- ===== src/Lib.antt =====
-- Intern files documents: it queues them, reads and analyses each one, proposes a name, and renames
-- or copies the file under a journal that survives a crash. This library models the core of that
-- program: the database of the queue and of the journal, every operation on it, and the file operations
-- that move a document under the journal; and how the segments of a name are cleaned and fitted.
--
-- Domain        crates/intern-core/src/domain.rs and error.rs: statuses, the table of transitions,
--               error codes, and their spellings in the database.
-- Receipt       crates/intern-core/src/file_ops.rs: the journal entry of a file operation
--               (OperationReceipt), its kind, direction and stage.
-- Retry         crates/intern-core/src/file_ops.rs: LockRetry, the waits for a locked file. The operation
--               that is tried is a parameter; the waits are part of the result.
-- Store         crates/intern-core/src/store.rs: QueueStore. Its tables are lists of rows (Store/Db);
--               a statement, a transaction and their failures are actions on them (Store/Tx).
--   Session     touch_session, the INSERT of open, Drop, and the test for an owner that is gone.
--   Queue       enqueue, claim_next, renew_lease, transition, manual_retry, retry_duplicate,
--               complete_keep_original, recover_interrupted, clear_terminal, discard_queued,
--               record_processing_failure.
--   Applying    begin_applying, renew_operation_lease, complete_apply, complete_undo,
--               claim_applying_reconciliation.
--   Reconcile   the resolve_*, defer_*, park_* and record_applying_rollback operations, and
--               claim_deferred_reconciliation.
--   Journal     create_receipt, update_receipt, load_receipt, load_active_receipt.
--   Queries     find_completed_duplicate, find_newest_by_source_path, list, list_operation_history;
--               Path::file_name is a parameter of the first.
--   Plans       that a journal entry keeps its plan, and what create_receipt and update_receipt return.
--   Runs        the operations as data, and the databases that sessions reach by them.
--   Invariant   what holds in all of those databases, one file for each group of operations.
--   Behaviour   what the operations do, on every branch; Spec has the tests and assignments that the
--               statements are compared with, written out on their own.
-- Applier       crates/intern-core/src/file_ops.rs: FileApplier. An action takes the state of the world, the
--               file system's and the database, and ends with a value, an error code with the receipt
--               that the error carries, or no result (Applier/World).
--   Failure     reconciliation_error, temp_failure, and the updates of the journal.
--   Transfer    same_volume_transfer and rollback_after_rename.
--   Copy        cross_volume_transfer.
--   Entry       fingerprint, available_destination, transfer, apply and undo.
--   Reconcile   reconcile and all it calls.
--   Choice      which destination is chosen.
--   Undo        what undo asks for.
--   Safety      that a move, and its recovery, lose no document: what is asked of the file system (Laws),
--               the rules (Rules, Blocks, Start), and the actions one by one.
-- Naming        crates/intern-engine/src/naming.rs: sanitize_segment (Segment) and fit (Fit). A char is its
--               code point; char::is_whitespace and char::is_control are parameters. compose_filename,
--               which looks for a free name, and the extension's functions are not modelled.
-- Prelude       Boolean tests, lists, and the laws of selecting, updating and deleting rows.
-- Tests         runs at concrete inputs, and each theorem at one.
--
-- An operation takes a context: the session of its QueueStore, the time in seconds, and
-- str::to_lowercase and Path::to_string_lossy, which stay parameters. The source reads the clock once or
-- more in an operation; here it is read once. Different operations may have any times, in any order.
-- An operation returns the database and a value or an error code; the message and the receipt that
-- an InternError carries are left out. A statement changes all rows that match, as SQL does, and
-- answers how many; a transaction that ends in an error restores the database. Statuses, error
-- codes, kinds, directions and stages stand in the rows as themselves and not as text, which the
-- round trips of Domain and Receipt justify. Paths are lists of bytes, and the database keeps what
-- to_string_lossy makes of them; an INSERT that conflicts uses up a key, as an AUTOINCREMENT table
-- does; ids and times are natural numbers; the failure counter must fit 32 bits to be read, as in
-- row_to_item.
--
-- Not modelled: the failures that SQLite itself reports (I/O, a busy or poisoned connection), the
-- migration of older databases, the generation of session ids, and the tables schema_migrations and
-- proposals, which no modelled operation reads. A session id that is already taken makes open fail.
-- The crates that read and analyse documents, watch folders and talk to services are outside this
-- library, but for the names.
-- The traits FileSystem and LockedFile are parameters of FileApplier's model (Env): each call takes the
-- file system's state and returns the next one with any result. So are the clock, the part of a temporary
-- name that comes from the process, and the operations that other sessions perform before each call of
-- the store. Path's functions are the record Paths. StdFileSystem and the code for Windows and for other
-- systems behind it are not modelled. Dropping a handle has no result and is left out. LockRetry's loop runs
-- on its number of attempts; available_destination's loop runs on 2^32 looks, one for each number of a u32,
-- which wraps as in a release build; a loop that still runs then has no result in the model, and the
-- theorem on it says when it ends before. Path's == is a parameter, since it compares components.
mod Prelude
pub mod Domain
pub mod Receipt
pub mod Retry
pub mod Store
pub mod Applier
pub mod Naming
mod Tests
