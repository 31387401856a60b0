-- ===== src/Applier/Failure.antt =====
-- file_ops.rs: `reconciliation_error` and `temp_failure`, the ends of an operation that failed.
use intern.Prelude.{Bool, true, false, ◌&&◌, if◌then◌else◌}
use intern.Domain.Error.{ErrorCode, source_locked, state_conflict, is_source_delete_failed}
use intern.Receipt.{OperationReceipt, OperationStage, published, is_stage, is_apply}
use intern.Retry.Defs.{IoError, IoResult, is_transient_lock}
use intern.Store.Db.{QueueItem}
use intern.Store.Applying.{renew_operation_lease}
use intern.Store.Reconcile.{record_applying_rollback, defer_published_reconciliation}
use intern.Store.Journal.{update_receipt}
use intern.Applier.World.{Env, FileApplier, App, ◌>>=◌, fail_with, catch, on_files, on_store}

-- `Err(error) => is_transient_lock(&error)`, as the code of a failure to read or move the source
abbrev pub lock_code : FileApplier → ErrorCode → IoError → ErrorCode
lock_code fa otherwise e = if is_transient_lock fa.windows e then source_locked else otherwise

abbrev pub is_unit_error : {A : Type 0} → IoResult A → Bool
is_unit_error (IoResult.ok a) = false
is_unit_error (IoResult.err e) = true

-- which of the two operations journals the failure
abbrev pub defers : OperationReceipt → ErrorCode → Bool
defers receipt code =
    is_source_delete_failed code && (is_apply receipt.direction && is_stage receipt.stage published)

module _ {E : Env} (fa : FileApplier) where
  unfoldable pub journal_failure : OperationReceipt → ErrorCode → App E QueueItem
  journal_failure receipt code =
      if defers receipt code
      then on_store fa (λ c. defer_published_reconciliation c receipt.queue_item_id receipt.id code)
      else on_store fa (λ c. record_applying_rollback c receipt.queue_item_id receipt.id code)

  unfoldable pub reconciliation_error : {A : Type 0} → OperationReceipt → ErrorCode → App E A
  reconciliation_error {A} receipt code = do
    item ← catch (journal_failure receipt code) (fail_with receipt state_conflict)
    fail_with receipt code

  -- The journal entry is updated; the new one, or the one that could not be written, goes with the
  -- error.
  unfoldable pub journal_and_fail :
      {A : Type 0} → OperationStage → OperationReceipt → ErrorCode → App E A
  journal_and_fail {A} expected_stage receipt code = do
    actual ←
        catch (on_store fa (λ c. update_receipt c expected_stage receipt))
          (reconciliation_error receipt state_conflict)
    reconciliation_error actual code

  -- `update_receipt(...).map_err(|_| self.reconciliation_error(receipt.clone(), StateConflict, ...))`
  unfoldable pub journal : OperationStage → OperationReceipt → App E OperationReceipt
  journal expected_stage receipt =
      catch (on_store fa (λ c. update_receipt c expected_stage receipt))
        (reconciliation_error receipt state_conflict)

  unfoldable pub temp_failure : {A : Type 0} → OperationReceipt → E.Handle → ErrorCode → App E A
  temp_failure {A} receipt temporary_locked code = do
    item ←
        catch
          (on_store fa
            (λ c. renew_operation_lease c receipt.queue_item_id receipt.id receipt.stage))
          (reconciliation_error (record receipt { temporary_exists = true }) state_conflict)
    deleted ← on_files (E.handle_delete temporary_locked)
    journal_and_fail receipt.stage (record receipt { temporary_exists = is_unit_error deleted })
        code
