-- ===== src/Store/Reconcile.antt =====
-- store.rs: how a file operation that was interrupted, or that failed half way, is settled.
use intern.Prelude.{
  ℕ, Bool, true, false, not, ◌&&◌, Option, none, some, ◌==◌, has_num, is_some, if◌then◌else◌,
}
use intern.Prelude.Table.{exists_where, find_where}
use intern.Domain.{QueueStatus, ready, needs_review, applying, is_status}
use intern.Domain.Error.{
  ErrorCode, state_conflict, invalid_transition, invalid_data, is_source_delete_failed,
}
use intern.Receipt.{
  OperationStage, published, rollback_required, rolled_back, complete, is_stage, is_apply,
}
use intern.Store.Db.{Db, QueueRow, QueueItem, ReceiptRow, Ctx, lease_deadline}
use intern.Store.Tx.{
  Tx, ◌>>=◌, ◌>>◌, pure, guard, require, read, transaction, cas_items, cas_receipts, query_one,
}
use intern.Store.Session.{touch_session}
use intern.Store.Queue.{released}
use intern.Store.Applying.{
  was, was_applicable, starts_from, leads_to, other_active, owned_applying, receipt_at,
}

abbrev pub can_resolve_rolled_back : OperationStage → Bool
can_resolve_rolled_back published = false
can_resolve_rolled_back complete = false
can_resolve_rolled_back _ = true

abbrev pub rolled_back_receipt : Ctx → ReceiptRow → ReceiptRow
rolled_back_receipt c rc = record rc {
  receipt = record (rc.receipt) {
    stage = rolled_back;
    source_exists = true;
    destination_exists = false;
    temporary_exists = false;
  };
  updated_at = c.now;
}

abbrev pub cleaned_receipt : Ctx → ReceiptRow → ReceiptRow
cleaned_receipt c rc = record rc {
  receipt = record (rc.receipt) { temporary_exists = false };
  updated_at = c.now;
}

-- `status = previous_status`; the WHERE clauses make the previous status present
abbrev pub status_before : QueueRow → QueueStatus
status_before r = elim r.previous_status [ none ↦ r.status | some s ↦ s ]

-- the item goes back to the status that it was applied from
abbrev pub restored : Ctx → QueueRow → QueueRow
restored c r = released c (status_before r) r

unfoldable pub resolve_reconciled_rollback : Ctx → ℕ → ℕ → OperationStage → Tx QueueItem
resolve_reconciled_rollback c id receipt_id expected_stage = do
  guard (can_resolve_rolled_back expected_stage) invalid_transition
  transaction (do
    touch_session c
    cas_receipts (λ _ rc. receipt_at id receipt_id expected_stage rc)
        (if is_stage expected_stage rolled_back then cleaned_receipt c else rolled_back_receipt c)
    cas_items
        (λ db r.
          owned_applying c id r
          && (has_num r.active_receipt_id receipt_id
              && exists_where
                  (λ rc.
                    receipt_at id receipt_id rolled_back rc
                    && was r.previous_status (starts_from rc.direction))
                  db.receipts))
        (restored c)
    query_one (λ r. r.id == id))

unfoldable pub resolve_empty_applying : Ctx → ℕ → Tx QueueItem
resolve_empty_applying c id = transaction (do
  touch_session c
  cas_items
      (λ _ r.
        owned_applying c id r
        && (not (is_some r.active_receipt_id)
            && (not (r.applying_epoch == 0) && was_applicable r.previous_status)))
      (restored c)
  query_one (λ r. r.id == id))

abbrev pub can_resolve_verified : OperationStage → Bool
can_resolve_verified rollback_required = false
can_resolve_verified rolled_back = false
can_resolve_verified _ = true

abbrev pub completed_receipt : Ctx → ReceiptRow → ReceiptRow
completed_receipt c rc = record rc {
  receipt = record (rc.receipt) {
    stage = complete;
    source_exists = false;
    destination_exists = true;
    temporary_exists = false;
    post_operation_hash = some rc.pre_operation_hash;
  };
  updated_at = c.now;
}

-- the receipt that `resolve_verified_operation` selects
unfoldable pub bound_receipt : Ctx → ℕ → ℕ → OperationStage → Db → Option ReceiptRow
bound_receipt c id receipt_id stage db =
    find_where
      (λ rc.
        receipt_at id receipt_id stage rc
        && exists_where (λ r. owned_applying c id r && has_num r.active_receipt_id receipt_id)
            db.items)
      db.receipts

unfoldable pub complete_receipt_unless_done : Ctx → ℕ → ℕ → OperationStage → Tx (Unit {0})
complete_receipt_unless_done c id receipt_id complete = pure tt
complete_receipt_unless_done c id receipt_id stage =
    cas_receipts (λ _ rc. receipt_at id receipt_id stage rc) (completed_receipt c)

unfoldable pub resolve_verified_operation : Ctx → ℕ → ℕ → OperationStage → Tx QueueItem
resolve_verified_operation c id receipt_id expected_stage = do
  guard (can_resolve_verified expected_stage) invalid_transition
  transaction (do
    touch_session c
    found ← read (bound_receipt c id receipt_id expected_stage)
    rc ← require state_conflict found
    complete_receipt_unless_done c id receipt_id expected_stage
    cas_items
        (λ _ r.
          owned_applying c id r
          && (was r.previous_status (starts_from rc.direction)
              && has_num r.active_receipt_id receipt_id))
        (released c (leads_to rc.direction))
    query_one (λ r. r.id == id))

abbrev pub rollback_noted : Ctx → ℕ → ErrorCode → QueueRow → QueueRow
rollback_noted c receipt_id error r = record r {
  reconciliation_receipt_id = some receipt_id;
  error_code = some error;
  lease_expires_at = some (lease_deadline c);
  updated_at = c.now;
}

unfoldable pub record_applying_rollback : Ctx → ℕ → ℕ → ErrorCode → Tx QueueItem
record_applying_rollback c id receipt_id error = transaction (do
  touch_session c
  cas_items (λ _ r. owned_applying c id r && has_num r.active_receipt_id receipt_id)
      (rollback_noted c receipt_id error)
  query_one (λ r. r.id == id))

abbrev pub parked : Ctx → ℕ → ErrorCode → QueueRow → QueueRow
parked c receipt_id error r = record r {
  status = needs_review;
  reconciliation_receipt_id = some receipt_id;
  active_receipt_id = none;
  previous_status = none;
  owner_session = none;
  lease_expires_at = none;
  error_code = some error;
  updated_at = c.now;
}

-- an apply whose destination is published
abbrev pub published_apply : ℕ → ℕ → ReceiptRow → Bool
published_apply id receipt_id rc = receipt_at id receipt_id published rc && is_apply rc.direction

unfoldable pub defer_published_reconciliation : Ctx → ℕ → ℕ → ErrorCode → Tx QueueItem
defer_published_reconciliation c id receipt_id error = do
  guard (is_source_delete_failed error) invalid_data
  transaction (do
    cas_items
        (λ db r.
          owned_applying c id r
          && (has_num r.active_receipt_id receipt_id
              && exists_where (published_apply id receipt_id) db.receipts))
        (parked c receipt_id error)
    query_one (λ r. r.id == id))

unfoldable pub park_applying_for_review : Ctx → ℕ → ℕ → ErrorCode → Tx QueueItem
park_applying_for_review c id receipt_id error = transaction (do
  cas_items (λ _ r. owned_applying c id r && has_num r.active_receipt_id receipt_id)
      (parked c receipt_id error)
  query_one (λ r. r.id == id))

abbrev pub flagged_source_delete : Option ErrorCode → Bool
flagged_source_delete none = false
flagged_source_delete (some e) = is_source_delete_failed e

-- the deferred receipt is there, and is a published apply of this item
abbrev pub deferred_published : Db → ℕ → Option ℕ → Bool
deferred_published db id none = false
deferred_published db id (some receipt_id) =
    exists_where (published_apply id receipt_id) db.receipts

abbrev pub reclaimed : Ctx → QueueRow → QueueRow
reclaimed c r = record r {
  status = applying;
  previous_status = some ready;
  owner_session = some c.session;
  lease_expires_at = some (lease_deadline c);
  active_receipt_id = r.reconciliation_receipt_id;
  updated_at = c.now;
}

unfoldable pub claim_deferred_reconciliation : Ctx → ℕ → Tx QueueItem
claim_deferred_reconciliation c id = transaction (do
  touch_session c
  cas_items
      (λ db r.
        r.id == id
        && (is_status r.status needs_review
            && (flagged_source_delete r.error_code
                && (not (is_some r.active_receipt_id)
                    && (deferred_published db r.id r.reconciliation_receipt_id
                        && not (exists_where (other_active id) db.items))))))
      (reclaimed c)
  query_one (λ r. r.id == id))
