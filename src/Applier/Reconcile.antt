-- ===== src/Applier/Reconcile.antt =====
-- file_ops.rs: `reconcile`, which settles an operation that was interrupted, or parks its item.
use intern.Prelude.{
  ℕ, Text, String, Bool, true, false, not, ◌&&◌, Option, none, some, str_eq, if◌then◌else◌,
}
use intern.Domain.Error.{
  ErrorCode, file_changed, state_conflict, move_verification_failed, source_delete_failed,
  reconciliation_required,
}
use intern.Receipt.{
  OperationReceipt, OperationStage, planned, copied, verified, published, rolled_back, complete,
  verified_copy, is_stage,
}
use intern.Store.Db.{QueueItem, ReceiptRow}
use intern.Store.Applying.{renew_operation_lease}
use intern.Store.Reconcile.{
  resolve_reconciled_rollback, resolve_empty_applying, resolve_verified_operation,
  park_applying_for_review,
}
use intern.Store.Journal.{load_active_receipt, update_receipt}
use intern.Applier.World.{
  Env, FileApplier, FileIdentity, World, Outcome, App, pure, fail_with, ◌>>=◌, ◌>>◌, catch, check,
  expect, on_files, on_store, retrying,
}
use intern.Applier.Transfer.{same_identity}
use intern.Applier.Entry.{is_kind}

-- no recorded hash, or the one before the operation
abbrev pub post_hash_fits : OperationReceipt → Option String → Bool
post_hash_fits receipt none = true
post_hash_fits receipt (some hash) = str_eq hash receipt.pre_operation_hash

-- a copy whose hash the receipt has proved
abbrev pub proves_copy : OperationStage → Bool
proves_copy planned = false
proves_copy copied = false
proves_copy _ = true

module _ {E : Env} (fa : FileApplier) where
  -- The file behind the handle has the recorded hash, under one identity before and after.
  unfoldable pub verify_handle : OperationReceipt → ErrorCode → E.Handle → App E FileIdentity
  verify_handle receipt code locked = do
    identity ← expect (on_files (E.handle_identity locked)) (λ _. fail_with receipt code)
    hash ← expect (on_files (E.handle_hash locked)) (λ _. fail_with receipt code)
    identity_after ← expect (on_files (E.handle_identity locked)) (λ _. fail_with receipt code)
    check (str_eq hash receipt.pre_operation_hash && same_identity identity_after identity)
        (fail_with receipt code)
    pure identity

  unfoldable pub verify_reconciled_source : OperationReceipt → App E E.Handle
  verify_reconciled_source receipt = do
    locked ←
        expect (on_files (E.lock_for_delete receipt.source)) (λ _. fail_with receipt file_changed)
    identity ← verify_handle receipt file_changed locked
    pure locked

  unfoldable pub verify_reconciled_destination : OperationReceipt → App E E.Handle
  verify_reconciled_destination receipt = do
    check (post_hash_fits receipt receipt.post_operation_hash)
        (fail_with receipt move_verification_failed)
    locked ←
        expect (on_files (E.lock_for_delete receipt.destination))
          (λ _. fail_with receipt move_verification_failed)
    identity ← verify_handle receipt move_verification_failed locked
    pure locked

  unfoldable pub verify_temporary : OperationReceipt → E.Handle → App E (Unit {0})
  verify_temporary receipt temporary =
      if proves_copy receipt.stage
      then verify_handle receipt move_verification_failed temporary >>= (λ _. pure tt)
      else pure tt

  unfoldable pub delete_temporary : OperationReceipt → Text → App E (Unit {0})
  delete_temporary receipt path = do
    temporary ←
        expect (on_files (E.lock_for_delete path)) (λ _. fail_with receipt move_verification_failed)
    verify_temporary receipt temporary
    item ←
        catch
          (on_store fa
            (λ c. renew_operation_lease c receipt.queue_item_id receipt.id receipt.stage))
          (fail_with receipt state_conflict)
    expect (on_files (E.handle_delete temporary)) (λ _. fail_with receipt source_delete_failed)

  unfoldable pub cleanup_at : OperationReceipt → Option Text → App E (Unit {0})
  cleanup_at receipt none = pure tt
  cleanup_at receipt (some path) = do
    there ← on_files (E.exists path)
    if there
        then delete_temporary receipt path
        else check (not receipt.temporary_exists) (fail_with receipt state_conflict)

  unfoldable pub cleanup_reconciled_temporary : OperationReceipt → App E (Unit {0})
  cleanup_reconciled_temporary receipt = cleanup_at receipt receipt.temporary_path

  unfoldable pub reconcile_rolled_back : OperationReceipt → App E QueueItem
  reconcile_rolled_back receipt = do
    occupied ← on_files (E.exists receipt.destination)
    check (not occupied) (fail_with receipt state_conflict)
    source ← verify_reconciled_source receipt
    cleanup_reconciled_temporary receipt
    on_store fa (λ c. resolve_reconciled_rollback c receipt.queue_item_id receipt.id rolled_back)

  unfoldable pub reconcile_complete : OperationReceipt → App E QueueItem
  reconcile_complete receipt = do
    there ← on_files (E.exists receipt.source)
    check (not there) (fail_with receipt state_conflict)
    destination ← verify_reconciled_destination receipt
    on_store fa (λ c. resolve_verified_operation c receipt.queue_item_id receipt.id complete)

  -- the deletion of a source whose copy is published
  unfoldable pub delete_published_source :
      OperationReceipt → E.Handle → FileIdentity → App E (Unit {0})
  delete_published_source receipt destination destination_identity = do
    source ←
        expect (retrying fa (E.lock_for_delete receipt.source))
          (λ _. fail_with receipt source_delete_failed)
    identity ← expect (on_files (E.handle_identity source)) (λ _. fail_with receipt file_changed)
    hash ← expect (on_files (E.handle_hash source)) (λ _. fail_with receipt file_changed)
    identity_after ←
        expect (on_files (E.handle_identity source)) (λ _. fail_with receipt file_changed)
    destination_after ←
        expect (on_files (E.handle_identity destination))
          (λ _. fail_with receipt move_verification_failed)
    check
        (str_eq hash receipt.pre_operation_hash
          && (same_identity identity_after identity
              && same_identity destination_after destination_identity))
        (fail_with receipt file_changed)
    item ←
        catch
          (on_store fa (λ c. renew_operation_lease c receipt.queue_item_id receipt.id published))
          (fail_with receipt state_conflict)
    expect (on_files (E.handle_delete source)) (λ _. fail_with receipt source_delete_failed)

  unfoldable pub reconcile_published : OperationReceipt → App E QueueItem
  reconcile_published receipt = do
    destination ← verify_reconciled_destination receipt
    destination_identity ←
        expect (on_files (E.handle_identity destination))
          (λ _. fail_with receipt move_verification_failed)
    there ← on_files (E.exists receipt.source)
    if there then delete_published_source receipt destination destination_identity else pure tt
    on_store fa (λ c. resolve_verified_operation c receipt.queue_item_id receipt.id published)

  -- `temporary_survives`
  unfoldable pub survives_at : Option Text → App E Bool
  survives_at none = pure false
  survives_at (some path) = on_files (E.exists path)

  -- A publication that was not journalled is journalled, and the operation goes on from there.
  unfoldable pub catch_up : OperationReceipt → App E QueueItem
  catch_up receipt = do
    destination ← verify_reconciled_destination receipt
    shown ←
        catch
          (on_store fa (λ c. update_receipt c verified (record receipt {
            destination_exists = true;
            temporary_exists = false;
            stage = published;
          })))
          (fail_with receipt state_conflict)
    reconcile_published shown

  -- a verified copy, whose temporary path is asked for only then
  unfoldable pub may_catch_up : OperationReceipt → App E Bool
  may_catch_up receipt =
      if is_kind receipt.kind verified_copy && is_stage receipt.stage verified
      then survives_at receipt.temporary_path >>= (λ survives. pure (not survives))
      else pure false

  unfoldable pub reconcile_both : OperationReceipt → App E QueueItem
  reconcile_both receipt = do
    recoverable ← may_catch_up receipt
    if recoverable then catch_up receipt else fail_with receipt reconciliation_required

  -- by whether the source and the destination are there
  unfoldable pub reconcile_by : OperationReceipt → Bool → Bool → App E QueueItem
  reconcile_by receipt true false = do
    source ← verify_reconciled_source receipt
    cleanup_reconciled_temporary receipt
    on_store fa (λ c. resolve_reconciled_rollback c receipt.queue_item_id receipt.id receipt.stage)
  reconcile_by receipt false true = do
    destination ← verify_reconciled_destination receipt
    on_store fa (λ c. resolve_verified_operation c receipt.queue_item_id receipt.id receipt.stage)
  reconcile_by receipt true true = reconcile_both receipt
  reconcile_by receipt false false = fail_with receipt reconciliation_required

  unfoldable pub reconcile_incomplete : OperationReceipt → App E QueueItem
  reconcile_incomplete receipt = do
    source_exists ← on_files (E.exists receipt.source)
    destination_exists ← on_files (E.exists receipt.destination)
    reconcile_by receipt source_exists destination_exists

  unfoldable pub reconcile_receipt : OperationReceipt → OperationStage → App E QueueItem
  reconcile_receipt receipt rolled_back = reconcile_rolled_back receipt
  reconcile_receipt receipt published = reconcile_published receipt
  reconcile_receipt receipt complete = reconcile_complete receipt
  reconcile_receipt receipt stage = reconcile_incomplete receipt

  -- `park_unsettled`: the error is kept, and the result of parking is not looked at
  abbrev pub park_unsettled : World E × Outcome QueueItem → World E × Outcome QueueItem
  park_unsettled (w, Outcome.err code (some receipt)) = (
    (on_store fa (λ c. park_applying_for_review c receipt.queue_item_id receipt.id code) w).0,
    Outcome.err code (some receipt),
  )
  park_unsettled out = out

  unfoldable pub settle_active : ℕ → Option ReceiptRow → App E QueueItem
  settle_active queue_item_id none = on_store fa (λ c. resolve_empty_applying c queue_item_id)
  settle_active queue_item_id (some row) =
      λ w. park_unsettled (reconcile_receipt row.receipt row.receipt.stage w)

  unfoldable pub reconcile : ℕ → App E QueueItem
  reconcile queue_item_id = do
    row ← on_store fa (λ _. load_active_receipt queue_item_id)
    settle_active queue_item_id row
