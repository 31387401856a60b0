-- ===== src/Applier/Copy.antt =====
-- file_ops.rs: `cross_volume_transfer`, a verified copy at a temporary path, its publication, and the
-- deletion of the source.
use intern.Prelude.{Text, true, false, Option, none, some, str_eq}
use intern.Domain.Error.{
  file_changed, state_conflict, destination_unavailable, move_verification_failed, invalid_data,
  source_delete_failed,
}
use intern.Receipt.{OperationReceipt, planned, copied, verified, published, complete}
use intern.Retry.Defs.{IoResult}
use intern.Store.Applying.{renew_operation_lease}
use intern.Applier.World.{
  Env, FileApplier, FileIdentity, App, pure, ◌>>=◌, ◌>>◌, catch, check, expect, on_files, on_store,
  retrying,
}
use intern.Applier.Failure.{reconciliation_error, journal_and_fail, journal, temp_failure}
use intern.Applier.Transfer.{same_identity}

module _ {E : Env} (fa : FileApplier) where
  -- `receipt.temporary_path.clone().ok_or_else(...)`
  unfoldable pub temporary_of : OperationReceipt → Option Text → App E Text
  temporary_of receipt none = reconciliation_error fa receipt invalid_data
  temporary_of receipt (some t) = pure t

  -- what becomes of the copy: a handle, or a journalled failure
  unfoldable pub copied_or_failed : OperationReceipt → Text → IoResult E.Handle → App E E.Handle
  copied_or_failed receipt temporary (IoResult.ok locked) = pure locked
  copied_or_failed receipt temporary (IoResult.err _) = do
    there ← on_files (E.exists temporary)
    journal_and_fail fa planned (record receipt { temporary_exists = there })
        destination_unavailable

  -- the copy, up to the stage `verified`
  unfoldable pub verified_copy_of : OperationReceipt → Text → App E OperationReceipt
  verified_copy_of receipt temporary = do
    copy ← on_files (E.copy_new_locked receipt.source temporary)
    locked ← copied_or_failed receipt temporary copy
    made ← journal fa planned (record receipt { temporary_exists = true; stage = copied })
    identity ←
        expect (on_files (E.handle_identity locked))
          (λ _. reconciliation_error fa made move_verification_failed)
    hash ←
        expect (on_files (E.handle_hash locked))
          (λ _. temp_failure fa made locked move_verification_failed)
    check (str_eq hash made.pre_operation_hash)
        (temp_failure fa made locked move_verification_failed)
    proven ← journal fa copied (record made { post_operation_hash = some hash; stage = verified })
    identity_after ←
        expect (on_files (E.handle_identity locked))
          (λ _. reconciliation_error fa proven move_verification_failed)
    check (same_identity identity_after identity)
        (temp_failure fa proven locked move_verification_failed)
    pure proven

  unfoldable pub published_or_failed :
      OperationReceipt → Text → IoResult (Unit {0}) → App E (Unit {0})
  published_or_failed receipt temporary (IoResult.ok _) = pure tt
  published_or_failed receipt temporary (IoResult.err _) = do
    temporary_there ← on_files (E.exists temporary)
    destination_there ← on_files (E.exists receipt.destination)
    journal_and_fail fa verified
        (record receipt {
          temporary_exists = temporary_there;
          destination_exists = destination_there;
        })
        destination_unavailable

  -- the publication of the copy, up to its verified hash
  unfoldable pub publish_copy : OperationReceipt → Text → App E OperationReceipt
  publish_copy receipt temporary = do
    renamed ← retrying fa (E.rename_no_replace temporary receipt.destination)
    published_or_failed receipt temporary renamed
    journal fa verified
        (record receipt { temporary_exists = false; destination_exists = true; stage = published })

  -- the source is deleted if it, and the copy, are still what they were
  unfoldable pub delete_source :
      OperationReceipt → E.Handle → FileIdentity → E.Handle → FileIdentity → App E OperationReceipt
  delete_source receipt locked identity published_locked published_identity = do
    identity_before ←
        expect (on_files (E.handle_identity locked))
          (λ _. reconciliation_error fa receipt file_changed)
    check (same_identity identity_before identity) (reconciliation_error fa receipt file_changed)
    source_hash ←
        expect (on_files (E.handle_hash locked)) (λ _. reconciliation_error fa receipt file_changed)
    check (str_eq source_hash receipt.pre_operation_hash)
        (reconciliation_error fa receipt file_changed)
    published_after ←
        expect (on_files (E.handle_identity published_locked))
          (λ _. reconciliation_error fa receipt move_verification_failed)
    check (same_identity published_after published_identity)
        (reconciliation_error fa receipt move_verification_failed)
    item ←
        catch
          (on_store fa (λ c. renew_operation_lease c receipt.queue_item_id receipt.id published))
          (reconciliation_error fa receipt state_conflict)
    deleted ←
        expect (on_files (E.handle_delete locked))
          (λ _. reconciliation_error fa receipt source_delete_failed)
    journal fa published (record receipt { source_exists = false; stage = complete })

  -- the verification of the published copy, and the deletion of the source
  unfoldable pub finish_copy : OperationReceipt → FileIdentity → E.Handle → App E OperationReceipt
  finish_copy receipt identity locked = do
    published_locked ←
        expect (on_files (E.lock_for_delete receipt.destination))
          (λ _. reconciliation_error fa receipt move_verification_failed)
    published_identity ←
        expect (on_files (E.handle_identity published_locked))
          (λ _. reconciliation_error fa receipt move_verification_failed)
    published_hash ←
        expect (on_files (E.handle_hash published_locked))
          (λ _. reconciliation_error fa receipt move_verification_failed)
    check (str_eq published_hash receipt.pre_operation_hash) (
        journal_and_fail fa published (record receipt { post_operation_hash = some published_hash })
          move_verification_failed)
    proven ← journal fa published (record receipt { post_operation_hash = some published_hash })
    delete_source proven locked identity published_locked published_identity

  unfoldable pub cross_volume_transfer :
      OperationReceipt → FileIdentity → E.Handle → App E OperationReceipt
  cross_volume_transfer receipt identity locked = do
    temporary ← temporary_of receipt receipt.temporary_path
    proven ← verified_copy_of receipt temporary
    shown ← publish_copy proven temporary
    finish_copy shown identity locked
