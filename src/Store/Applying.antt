-- ===== src/Store/Applying.antt =====
-- store.rs: one file operation on an item, from `begin_applying` to its end or its recovery.
use intern.Prelude.{
  ℕ, ◌+◌, Bool, true, false, not, ◌&&◌, Option, none, some, ◌==◌, has_num, has_text, is_some,
}
use intern.Prelude.Table.{exists_where}
use intern.Domain.{QueueStatus, ready, completed, applying, is_status}
use intern.Domain.Error.{invalid_transition}
use intern.Receipt.{
  OperationDirection, apply, undo, OperationStage, complete, is_stage, is_direction,
}
use intern.Store.Db.{QueueRow, QueueItem, ReceiptRow, Ctx, lease_deadline}
use intern.Store.Tx.{Tx, ◌>>◌, guard, transaction, cas_items, query_one}
use intern.Store.Session.{touch_session, owner_gone}
use intern.Store.Queue.{active_row, released, renewed}

-- `previous_status = ?`
abbrev pub was : Option QueueStatus → QueueStatus → Bool
was none s = false
was (some t) s = is_status t s

-- another item is being worked on
abbrev pub other_active : ℕ → QueueRow → Bool
other_active id r = not (r.id == id) && active_row r

abbrev pub is_applicable : QueueStatus → Bool
is_applicable ready = true
is_applicable completed = true
is_applicable _ = false

abbrev pub was_applicable : Option QueueStatus → Bool
was_applicable none = false
was_applicable (some s) = is_applicable s

-- the status from which an operation of this direction starts
abbrev pub starts_from : OperationDirection → QueueStatus
starts_from apply = ready
starts_from undo = completed

-- the status to which it leads
abbrev pub leads_to : OperationDirection → QueueStatus
leads_to apply = completed
leads_to undo = ready

abbrev pub begun : Ctx → QueueStatus → QueueRow → QueueRow
begun c expected r = record r {
  status = applying;
  previous_status = some expected;
  owner_session = some c.session;
  lease_expires_at = some (lease_deadline c);
  active_receipt_id = none;
  reconciliation_receipt_id = none;
  applying_epoch = r.applying_epoch + 1;
  error_code = none;
  updated_at = c.now;
}

unfoldable pub begin_applying : Ctx → ℕ → QueueStatus → Tx QueueItem
begin_applying c id expected = do
  guard (is_applicable expected) invalid_transition
  transaction (do
    touch_session c
    cas_items
        (λ db r.
          r.id == id
          && (is_status r.status expected
              && (not (is_some r.active_receipt_id)
                  && not (exists_where (other_active id) db.items))))
        (begun c expected)
    query_one (λ r. r.id == id))

-- the item `id` is being applied, by this session
abbrev pub owned_applying : Ctx → ℕ → QueueRow → Bool
owned_applying c id r =
    r.id == id && (is_status r.status applying && has_text r.owner_session c.session)

-- the receipt `receipt_id` belongs to the item `id`, and is in a stage
abbrev pub receipt_at : ℕ → ℕ → OperationStage → ReceiptRow → Bool
receipt_at id receipt_id stage rc =
    rc.id == receipt_id && (rc.queue_item_id == id && is_stage rc.stage stage)

unfoldable pub renew_operation_lease : Ctx → ℕ → ℕ → OperationStage → Tx QueueItem
renew_operation_lease c id receipt_id expected_stage = transaction (do
  touch_session c
  cas_items
      (λ db r.
        owned_applying c id r
        && (has_num r.active_receipt_id receipt_id
            && exists_where (receipt_at id receipt_id expected_stage) db.receipts))
      (renewed c)
  query_one (λ r. r.id == id))

unfoldable pub finish_applying :
    Ctx → ℕ → ℕ → QueueStatus → QueueStatus → OperationDirection → Tx QueueItem
finish_applying c id receipt_id next required_previous direction = transaction (do
  touch_session c
  cas_items
      (λ db r.
        owned_applying c id r
        && (was r.previous_status required_previous
            && (has_num r.active_receipt_id receipt_id
                && exists_where
                    (λ rc.
                      receipt_at id receipt_id complete rc && is_direction rc.direction direction)
                    db.receipts)))
      (released c next)
  query_one (λ r. r.id == id))

unfoldable pub complete_apply : Ctx → ℕ → ℕ → Tx QueueItem
complete_apply c id receipt_id = finish_applying c id receipt_id completed ready apply

unfoldable pub complete_undo : Ctx → ℕ → ℕ → Tx QueueItem
complete_undo c id receipt_id = finish_applying c id receipt_id ready completed undo

abbrev pub adopted : Ctx → QueueRow → QueueRow
adopted c r = record r {
  owner_session = some c.session;
  lease_expires_at = some (lease_deadline c);
  updated_at = c.now;
}

unfoldable pub claim_applying_reconciliation : Ctx → ℕ → Tx QueueItem
claim_applying_reconciliation c id = transaction (do
  touch_session c
  cas_items
      (λ db r.
        r.id == id
        && (is_status r.status applying && owner_gone c db r.owner_session r.lease_expires_at))
      (adopted c)
  query_one (λ r. r.id == id))
