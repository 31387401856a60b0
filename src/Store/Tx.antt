-- ===== src/Store/Tx.antt =====
-- Actions on the database: statements, failures, and transactions that roll back on an error.
-- The failures that SQLite itself can report (I/O, a busy or poisoned connection) are left out.
use intern.Prelude.{ℕ, ◌^◌, Bool, true, false, Option, none, some, ltb, if◌then◌else◌, ◌==◌}
use intern.Prelude.Table.{count_where, find_where, update_where}
use intern.Domain.Error.{ErrorCode, InternResult, ok, err, state_conflict, database_unavailable}
use intern.Store.Db.{Db, QueueRow, QueueItem, SessionRow, ReceiptRow}

abbrev pub Tx : Type 0 → Type 0
Tx A = Db → Db × InternResult A

unfoldable pub pure : {A : Type 0} → A → Tx A
pure a db = (db, ok a)

unfoldable pub fail : {A : Type 0} → ErrorCode → Tx A
fail e db = (db, err e)

abbrev pub resume : {A B : Type 0} → (A → Tx B) → Db × InternResult A → Db × InternResult B
resume k (db, ok a) = k a db
resume k (db, err e) = (db, err e)

-- `?` on each step
infixl 5 ◌>>=◌ ◌>>◌
unfoldable pub ◌>>=◌ : {A B : Type 0} → Tx A → (A → Tx B) → Tx B
◌>>=◌ m k db = resume k (m db)

unfoldable pub ◌>>◌ : {B : Type 0} → Tx (Unit {0}) → Tx B → Tx B
◌>>◌ m k db = resume (λ _. k) (m db)

-- `if !test { return Err(e) }`
unfoldable pub guard : Bool → ErrorCode → Tx (Unit {0})
guard true e db = (db, ok tt)
guard false e db = (db, err e)

-- an optional result, where `None` is an error
unfoldable pub require : {A : Type 0} → ErrorCode → Option A → Tx A
require e none db = (db, err e)
require e (some a) db = (db, ok a)

-- a query
unfoldable pub read : {A : Type 0} → (Db → A) → Tx A
read q db = (db, ok (q db))

abbrev pub settle : {A : Type 0} → Db → Db × InternResult A → Db × InternResult A
settle before (after, ok a) = (after, ok a)
settle before (after, err e) = (before, err e)

-- A transaction that is not committed leaves the database as it was.
unfoldable pub transaction : {A : Type 0} → Tx A → Tx A
transaction m db = settle db (m db)

-- How a transaction ends that may roll back and still answer `Ok`.
pub data Ending (A : Type 0) : Type 0 where
  commit rollback : A → Ending A

abbrev pub settle_ending : {A : Type 0} → Db → Db × InternResult (Ending A) → Db × InternResult A
settle_ending before (after, ok (commit a)) = (after, ok a)
settle_ending before (after, ok (rollback a)) = (before, ok a)
settle_ending before (after, err e) = (before, err e)

unfoldable pub transaction_ending : {A : Type 0} → Tx (Ending A) → Tx A
transaction_ending m db = settle_ending db (m db)

-- UPDATE queue_items: the number of rows that matched is the statement's result. The WHERE clause
-- may look at the whole database.
unfoldable pub update_items : (Db → QueueRow → Bool) → (QueueRow → QueueRow) → Tx ℕ
update_items p f db =
    (record db { items = update_where (p db) f db.items }, ok (count_where (p db) db.items))

unfoldable pub update_receipts : (Db → ReceiptRow → Bool) → (ReceiptRow → ReceiptRow) → Tx ℕ
update_receipts p f db = (
  record db { receipts = update_where (p db) f db.receipts },
  ok (count_where (p db) db.receipts),
)

unfoldable pub update_sessions : (SessionRow → Bool) → (SessionRow → SessionRow) → Tx ℕ
update_sessions p f db =
    (record db { sessions = update_where p f db.sessions }, ok (count_where p db.sessions))

-- The compare-and-swap of this file: an UPDATE that must change exactly one row.
unfoldable pub cas_items : (Db → QueueRow → Bool) → (QueueRow → QueueRow) → Tx (Unit {0})
cas_items p f = do changed ← update_items p f; guard (changed == 1) state_conflict

unfoldable pub cas_receipts : (Db → ReceiptRow → Bool) → (ReceiptRow → ReceiptRow) → Tx (Unit {0})
cas_receipts p f = do changed ← update_receipts p f; guard (changed == 1) state_conflict

abbrev pub item_of : QueueRow → QueueItem
item_of r = record {
  id = r.id;
  source_path = r.source_path;
  source_hash = r.source_hash;
  status = r.status;
  processing_failures = r.processing_failures;
  error_code = r.error_code;
  owner_session = r.owner_session;
  lease_expires_at = r.lease_expires_at;
  previous_status = r.previous_status;
  active_receipt_id = r.active_receipt_id;
  reconciliation_receipt_id = r.reconciliation_receipt_id;
  created_at = r.created_at;
  updated_at = r.updated_at;
}

-- `row_to_item`: the failure counter must fit a `u32`
unfoldable pub row_to_item : QueueRow → Option QueueItem
row_to_item r = if ltb r.processing_failures (2 ^ 32) then some (item_of r) else none

-- `query_one`: no row, or one that cannot be read, is an error
unfoldable pub query_one : (QueueRow → Bool) → Tx QueueItem
query_one p = do
  row ← read (λ db. find_where p db.items)
  r ← require database_unavailable row
  require database_unavailable (row_to_item r)
