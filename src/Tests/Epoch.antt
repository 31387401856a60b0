-- ===== src/Tests/Epoch.antt =====
-- File operations at concrete inputs: one that completes, and two that another session takes over.
use intern.Prelude.{◌≡◌, refl, true, false, none, some, if◌then◌else◌}
use mathlib.Core.Option
use intern.Prelude.Table.{exists_where}
use intern.Domain.{extracting, analyzing, ready, completed, applying}
use intern.Domain.Error.{ok, err, invalid_transition, source_delete_failed}
use intern.Receipt.{
  OperationReceipt, OperationStage, planned, published, complete, apply, undo, rename,
  can_advance_to,
}
use intern.Store.Db.{Db, QueueRow, QueueItem, Ctx, new_db}
use intern.Store.Tx.{settle, update_receipts, cas_receipts}
use intern.Store.Session.{is_session, owner_gone}
use intern.Store.Applying.{
  begin_applying, finish_applying, complete_apply, complete_undo, claim_applying_reconciliation,
}
use intern.Store.Reconcile.{
  resolve_empty_applying, claim_deferred_reconciliation, park_applying_for_review,
  defer_published_reconciliation,
}
use intern.Store.Journal.{create_receipt, insert_receipt, receiptless, update_receipt}
use intern.Store.Runs.{Op, run, Reach, start, step}
use intern.Store.Invariant.Defs.{Inv}
use intern.Store.Invariant.Reachable.{Reach-Inv}
use intern.Store.Invariant.Rules.{touched_sessions}
use intern.Store.Behaviour.Swap.{row_at, swap_spec}
use intern.Store.Behaviour.Claim.{touched}
use intern.Store.Behaviour.Spec.{is_start, at_rest}
use intern.Store.Behaviour.Epoch.{
  may_begin, first_row, begin_applying_lem, handed_over, taken_up, may_finish, complete_lem,
  is_abandoned, claim_applying_reconciliation_lem, may_reclaim, claim_deferred_reconciliation_lem,
}
use intern.Store.Behaviour.Abandoned.{abandoned_epoch_restored}
use intern.Tests.Store.{anna, scan, memo, machinery}

abbrev bert : Ctx
bert = record anna { session = "bert"; now = 280 }

-- two sessions, and a document that is ready
abbrev pub ready_db : Db
ready_db = run anna (Op.transition 1 analyzing ready none) (
    run anna (Op.transition 1 extracting analyzing none) (
      run anna Op.claim_next (
        run anna (Op.enqueue scan "s1")
          (run bert Op.open_session (run anna Op.open_session new_db)))))

pub ready_db-Reach : Reach ready_db
ready_db-Reach =
    step
      (step
        (step
          (step (step (step start anna Op.open_session) bert Op.open_session) anna
            (Op.enqueue scan "s1"))
          anna Op.claim_next)
        anna (Op.transition 1 extracting analyzing none))
      anna (Op.transition 1 analyzing ready none)

ready_db-Inv : Inv ready_db
ready_db-Inv = Reach-Inv ready_db-Reach

-- what the operations of this file compute through, too
unfoldable pub epochs : Unit {0}
unfolding machinery touched_sessions begin_applying create_receipt insert_receipt receiptless
    update_receipt update_receipts cas_receipts complete_apply finish_applying
    claim_applying_reconciliation resolve_empty_applying can_advance_to owner_gone
    park_applying_for_review defer_published_reconciliation claim_deferred_reconciliation
epochs = tt

ready_session : exists_where (is_session "anna") ready_db.sessions ≡ true
unfolding epochs
ready_session = refl

other_session : exists_where (is_session "bert") ready_db.sessions ≡ true
unfolding epochs
other_session = refl

begin_applying_lem_example : begin_applying anna 1 ready ready_db ≡ (
    if is_start ready
    then settle ready_db (
        swap_spec 1
          (may_begin 1 ready)
          (first_row anna ready)
          (touched anna ready_db)
          (row_at 1 ready_db))
    else (ready_db, err invalid_transition))
begin_applying_lem_example = begin_applying_lem anna 1 ready ready_db ready_db-Inv ready_session

-- the rename of the document, as it is planned
abbrev pub plan : OperationReceipt
plan = record {
  id = 0;
  queue_item_id = 1;
  direction = apply;
  source = scan;
  destination = memo;
  temporary_path = none;
  pre_operation_hash = "s1";
  post_operation_hash = none;
  kind = rename;
  stage = planned;
  source_exists = true;
  destination_exists = false;
  temporary_exists = false;
}

abbrev moved : OperationStage → OperationReceipt
moved stage = record plan {
  id = 1;
  stage = stage;
  source_exists = false;
  destination_exists = true;
  post_operation_hash = some "s1";
}

-- the document is renamed, and its receipt is complete
abbrev pub applied : Db
applied = run anna (Op.update_receipt published (moved complete)) (
    run anna (Op.update_receipt planned (moved published))
      (run anna (Op.create_receipt 1 plan) (run anna (Op.begin_applying 1 ready) ready_db)))

pub applied-Reach : Reach applied
applied-Reach =
    step
      (step
        (step (step ready_db-Reach anna (Op.begin_applying 1 ready)) anna
          (Op.create_receipt 1 plan))
        anna (Op.update_receipt planned (moved published)))
      anna (Op.update_receipt published (moved complete))

applied_session : exists_where (is_session "anna") applied.sessions ≡ true
unfolding epochs
applied_session = refl

-- The rename ends with the item completed.
completes :
    Option.map (λ (r : QueueRow). r.status) (row_at 1 (run anna (Op.complete_apply 1 1) applied))
    ≡ some completed
unfolding epochs
completes = refl

complete_lem_example :
    (complete_apply anna 1 1 applied
      ≡ settle applied (
          swap_spec 1
            (may_finish anna 1 1 ready apply)
            (at_rest anna completed)
            (touched anna applied)
            (row_at 1 applied)))
    × (complete_undo anna 1 1 applied
        ≡ settle applied (
            swap_spec 1
              (may_finish anna 1 1 completed undo)
              (at_rest anna ready)
              (touched anna applied)
              (row_at 1 applied)))
complete_lem_example = complete_lem anna 1 1 applied (Reach-Inv applied-Reach) applied_session

-- an operation that was begun, and nothing more
abbrev begun_db : Db
begun_db = run anna (Op.begin_applying 1 ready) ready_db

begun_db-Inv : Inv begun_db
begun_db-Inv = Reach-Inv (step ready_db-Reach anna (Op.begin_applying 1 ready))

begun_session : exists_where (is_session "bert") begun_db.sessions ≡ true
unfolding epochs
begun_session = refl

claim_applying_reconciliation_lem_example :
    claim_applying_reconciliation bert 1 begun_db
    ≡ settle begun_db (
        swap_spec 1
          (is_abandoned bert)
          (handed_over bert)
          (touched bert begun_db)
          (row_at 1 begun_db))
claim_applying_reconciliation_lem_example =
    claim_applying_reconciliation_lem bert 1 begun_db begun_db-Inv begun_session

-- the rename was published, and its source could not be deleted
abbrev deferred_db : Db
deferred_db = run anna (Op.defer_published_reconciliation 1 1 source_delete_failed) (
    run anna (Op.update_receipt planned (moved published))
      (run anna (Op.create_receipt 1 plan) (run anna (Op.begin_applying 1 ready) ready_db)))

deferred_db-Reach : Reach deferred_db
deferred_db-Reach =
    step
      (step
        (step (step ready_db-Reach anna (Op.begin_applying 1 ready)) anna
          (Op.create_receipt 1 plan))
        anna (Op.update_receipt planned (moved published)))
      anna (Op.defer_published_reconciliation 1 1 source_delete_failed)

deferred_session : exists_where (is_session "bert") deferred_db.sessions ≡ true
unfolding epochs
deferred_session = refl

-- The other session takes it up again.
retaken :
    Option.map
      (λ (r : QueueRow). r.status)
      (row_at 1 (run bert (Op.claim_deferred_reconciliation 1) deferred_db))
    ≡ some applying
unfolding epochs
retaken = refl

claim_deferred_reconciliation_lem_example :
    claim_deferred_reconciliation bert 1 deferred_db
    ≡ settle deferred_db (
        swap_spec 1
          (may_reclaim 1)
          (taken_up bert)
          (touched bert deferred_db)
          (row_at 1 deferred_db))
claim_deferred_reconciliation_lem_example =
    claim_deferred_reconciliation_lem bert 1 deferred_db (Reach-Inv deferred_db-Reach)
      deferred_session

abbrev begun_item : QueueItem
begun_item = record {
  id = 1;
  source_path = scan;
  source_hash = "s1";
  status = applying;
  processing_failures = 0;
  error_code = none;
  owner_session = some "anna";
  lease_expires_at = some 160;
  previous_status = some ready;
  active_receipt_id = none;
  reconciliation_receipt_id = none;
  created_at = 100;
  updated_at = 100;
}

-- Three minutes after the first session's last heartbeat, the other one puts the document back.
abandoned_epoch_restored_example :
    (claimed back : QueueItem) × ((claim_applying_reconciliation bert 1
        (begin_applying anna 1 ready ready_db).0).1
      ≡ ok claimed)
    × ((resolve_empty_applying bert 1
          (claim_applying_reconciliation bert 1 (begin_applying anna 1 ready ready_db).0).0).1
        ≡ ok back)
    × (back.status ≡ ready)
    × (back.owner_session ≡ none)
unfolding epochs
abandoned_epoch_restored_example =
    abandoned_epoch_restored anna bert 1 ready ready_db begun_item ready_db-Inv ready_session
      other_session refl refl
