-- ===== src/Store/Journal.antt =====
-- store.rs: the journal of file operations. An item has one open receipt at most.
use intern.Prelude.{
  ℕ, ◌+◌, Text, Bool, not, ◌&&◌, Option, none, some, [], ◌∷◌, ◌++◌, ltb, ◌==◌, has_num, is_some,
}
use intern.Prelude.Table.{exists_where, find_where, select_first}
use intern.Domain.{QueueStatus}
use intern.Domain.Error.{ok, state_conflict, invalid_transition, database_unavailable}
use intern.Receipt.{OperationStage, planned, is_stage, is_open, can_advance_to, OperationReceipt}
use intern.Store.Db.{Db, QueueRow, ReceiptRow, Ctx, lease_deadline}
use intern.Store.Tx.{
  Tx, ◌>>=◌, ◌>>◌, pure, guard, require, read, transaction, cas_items, cas_receipts,
}
use intern.Store.Session.{touch_session}
use intern.Store.Queue.{renewed}
use intern.Store.Applying.{was, starts_from, owned_applying, receipt_at}

abbrev pub open_of : ℕ → ReceiptRow → Bool
open_of id rc = rc.queue_item_id == id && is_open rc.stage

-- the item that may take a new receipt
unfoldable pub receiptless : Ctx → ℕ → Db → Option QueueRow
receiptless c id db =
    find_where
      (λ r.
        owned_applying c id r
        && (not (is_some r.active_receipt_id) && not (exists_where (open_of id) db.receipts)))
      db.items

-- `path_text`, of a path that may be missing
abbrev pub path_text : Ctx → Option Text → Option Text
path_text c none = none
path_text c (some path) = some (c.to_string_lossy path)

-- INSERT INTO operation_receipts; the row's key is the result, and its paths are the texts of the
-- receipt's
unfoldable pub insert_receipt : Ctx → OperationReceipt → Tx ℕ
insert_receipt c receipt db = (
  record db {
    receipts =
        db.receipts
        ++ record {
          receipt = record receipt {
            id = db.next_receipt_id;
            source = c.to_string_lossy receipt.source;
            destination = c.to_string_lossy receipt.destination;
            temporary_path = path_text c receipt.temporary_path;
          };
          created_at = c.now;
          updated_at = c.now;
        }
          ∷ [];
    next_receipt_id = db.next_receipt_id + 1;
  },
  ok db.next_receipt_id,
)

abbrev pub bound : Ctx → ℕ → QueueRow → QueueRow
bound c receipt_id r = record r {
  active_receipt_id = some receipt_id;
  lease_expires_at = some (lease_deadline c);
  updated_at = c.now;
}

-- `previous_status` of the selected row: no row fits no direction, and NULL cannot be read
abbrev pub previous_of : Option QueueRow → Tx (Option QueueStatus)
previous_of none = pure none
previous_of (some r) = do s ← require database_unavailable r.previous_status; pure (some s)

unfoldable pub create_receipt : Ctx → ℕ → OperationReceipt → Tx OperationReceipt
create_receipt c queue_item_id receipt = transaction (do
  touch_session c
  row ← read (receiptless c queue_item_id)
  previous ← previous_of row
  guard (was previous (starts_from receipt.direction) && is_stage receipt.stage planned)
      state_conflict
  id ← insert_receipt c (record receipt { queue_item_id = queue_item_id })
  cas_items (λ _ r. owned_applying c queue_item_id r && not (is_some r.active_receipt_id))
      (bound c id)
  pure (record receipt { id = id; queue_item_id = queue_item_id }))

abbrev pub newest_first : ReceiptRow → ReceiptRow → Bool
newest_first a b = ltb b.id a.id

unfoldable pub load_receipt : ℕ → Tx (Option ReceiptRow)
load_receipt queue_item_id =
    read (λ db. select_first newest_first (λ rc. rc.queue_item_id == queue_item_id) db.receipts)

-- the receipt of `active_receipt_id`, if it is the item's
abbrev pub active_receipt : Db → ℕ → Option QueueRow → Option ReceiptRow
active_receipt db queue_item_id none = none
active_receipt db queue_item_id (some r) =
    find_where (λ rc. has_num r.active_receipt_id rc.id && rc.queue_item_id == queue_item_id)
      db.receipts

unfoldable pub load_active_receipt : ℕ → Tx (Option ReceiptRow)
load_active_receipt queue_item_id =
    read (λ db. active_receipt db queue_item_id (find_where (λ r. r.id == queue_item_id) db.items))

abbrev pub updated_receipt : Ctx → OperationReceipt → ReceiptRow → ReceiptRow
updated_receipt c new rc = record rc {
  receipt = record (rc.receipt) {
    temporary_path = path_text c new.temporary_path;
    post_operation_hash = new.post_operation_hash;
    stage = new.stage;
    source_exists = new.source_exists;
    destination_exists = new.destination_exists;
    temporary_exists = new.temporary_exists;
  };
  updated_at = c.now;
}

unfoldable pub update_receipt : Ctx → OperationStage → OperationReceipt → Tx OperationReceipt
update_receipt c expected_stage receipt = do
  guard (can_advance_to expected_stage receipt.stage) invalid_transition
  transaction (do
    touch_session c
    cas_items
        (λ _ r. owned_applying c receipt.queue_item_id r && has_num r.active_receipt_id receipt.id)
        (renewed c)
    cas_receipts
        (λ db rc.
          receipt_at receipt.queue_item_id receipt.id expected_stage rc
          && exists_where
              (λ r.
                owned_applying c receipt.queue_item_id r && has_num r.active_receipt_id receipt.id)
              db.items)
        (updated_receipt c receipt)
    row ← read (λ db. find_where (λ rc. rc.id == receipt.id) db.receipts)
    rc ← require database_unavailable row
    pure rc.receipt)
