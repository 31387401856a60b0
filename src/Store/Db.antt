-- ===== src/Store/Db.antt =====
-- store.rs: the tables of the queue database. `schema_migrations` and `proposals`, which no
-- operation of this file reads, are left out.
use intern.Prelude.{ℕ, ◌+◌, Text, String, Option, List, []}
use intern.Domain.{QueueStatus}
use intern.Domain.Error.{ErrorCode}
use intern.Receipt.{OperationReceipt}

-- a row of `queue_sessions`
pub record SessionRow : Type 0 where
  pub session_id : String
  pub heartbeat_at : ℕ

-- a row of `queue_items`
pub record QueueRow : Type 0 where
  pub id : ℕ
  pub source_path : Text
  pub source_path_key : Text
  pub source_hash : String
  pub status : QueueStatus
  pub processing_failures : ℕ
  pub error_code : Option ErrorCode
  pub owner_session : Option String
  pub lease_expires_at : Option ℕ
  pub previous_status : Option QueueStatus
  pub active_receipt_id : Option ℕ
  pub reconciliation_receipt_id : Option ℕ
  pub applying_epoch : ℕ
  pub created_at : ℕ
  pub updated_at : ℕ

-- `QueueItem`: what a row is read as
pub record QueueItem : Type 0 where
  pub id : ℕ
  pub source_path : Text
  pub source_hash : String
  pub status : QueueStatus
  pub processing_failures : ℕ
  pub error_code : Option ErrorCode
  pub owner_session : Option String
  pub lease_expires_at : Option ℕ
  pub previous_status : Option QueueStatus
  pub active_receipt_id : Option ℕ
  pub reconciliation_receipt_id : Option ℕ
  pub created_at : ℕ
  pub updated_at : ℕ

-- a row of `operation_receipts`
pub record ReceiptRow : Type 0 where
  pub receipt : OperationReceipt
  pub open receipt use *
  pub created_at : ℕ
  pub updated_at : ℕ

-- The tables, with the next values of the two AUTOINCREMENT keys.
pub record Db : Type 0 where
  pub sessions : List SessionRow
  pub items : List QueueRow
  pub receipts : List ReceiptRow
  pub next_item_id : ℕ
  pub next_receipt_id : ℕ

-- a database that `QueueStore::open` has just created
unfoldable pub new_db : Db
new_db = record { sessions = []; items = []; receipts = []; next_item_id = 1; next_receipt_id = 1 }

-- What an operation knows besides the database: the session of its `QueueStore`, the time in
-- seconds (one reading for the operation), `str::to_lowercase`, and `Path::to_string_lossy`, which
-- replaces what is not Unicode.
pub record Ctx : Type 0 where
  pub session : String
  pub now : ℕ
  pub to_lowercase : Text → Text
  pub to_string_lossy : Text → Text

-- `LEASE_SECONDS`
abbrev pub lease_seconds : ℕ
lease_seconds = 60

abbrev pub lease_deadline : Ctx → ℕ
lease_deadline c = c.now + lease_seconds
