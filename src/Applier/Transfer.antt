-- ===== src/Applier/Transfer.antt =====
-- file_ops.rs: `apply`, `undo` and `transfer`, with the two ways to move a file: an atomic rename on
-- one volume, and a verified copy between two.
use intern.Prelude.{
  ℕ, Text, String, Bool, true, false, ◌&&◌, Option, none, some, ◌∷◌, ◌++◌, codes, str_eq, ◌==◌,
  if◌then◌else◌,
}
use intern.Domain.Error.{ErrorCode, destination_unavailable, io_error, move_verification_failed}
use intern.Receipt.{
  OperationReceipt, OperationDirection, OperationKind, planned, published, rollback_required,
  rolled_back, complete,
}
use intern.Retry.Defs.{IoError, IoResult}
use intern.Applier.World.{
  Env, FileApplier, FileIdentity, App, ◌>>=◌, ◌>>◌, check, expect, on_files, retrying,
}
use intern.Applier.Failure.{lock_code, reconciliation_error, journal_and_fail, journal}

-- The functions of `std::path::Path` and `Display` that are used, and `==` on paths; a name that is
-- not UTF-8 has no text.
pub record Paths : Type 0 where
  pub parent : Text → Option Text
  pub file_name : Text → Option Text
  pub file_name_text : Text → Option Text
  pub file_stem_text : Text → Option Text
  pub extension_text : Text → Option Text
  pub join : Text → Text → Text
  pub with_file_name : Text → Text → Text
  pub decimal : ℕ → Text
  pub same_path : Text → Text → Bool

abbrev pub unwrap_or : Text → Option Text → Text
unwrap_or otherwise none = otherwise
unwrap_or otherwise (some t) = t

-- `temporary_path`, where `unique` is "{process}.{nanos}.{sequence}"
unfoldable pub temporary_path : Paths → Text → Text → Text
temporary_path paths destination unique = paths.with_file_name destination (
    (b'.' ∷ unwrap_or (codes "destination") (paths.file_name_text destination))
    ++ ((b'.' ∷ unique) ++ codes ".intern-tmp"))

abbrev pub same_identity : FileIdentity → FileIdentity → Bool
same_identity a b = a.volume == b.volume && a.file == b.file

-- the receipt of `planned_receipt`
abbrev pub plan :
    ℕ → OperationDirection → Text → Text → Option Text → String → OperationKind → OperationReceipt
plan queue_item_id direction source destination temporary_path pre_operation_hash kind = record {
  id = 0;
  queue_item_id = queue_item_id;
  direction = direction;
  source = source;
  destination = destination;
  temporary_path = temporary_path;
  pre_operation_hash = pre_operation_hash;
  post_operation_hash = none;
  kind = kind;
  stage = planned;
  source_exists = true;
  destination_exists = false;
  temporary_exists = false;
}

-- the codes of the failures of a rename, and of a volume check
abbrev pub rename_code : FileApplier → IoError → ErrorCode
rename_code fa e = if e.already_exists then destination_unavailable else lock_code fa io_error e

module _ {E : Env} (fa : FileApplier) where
  -- what is journalled once the rename back has succeeded, or failed
  unfoldable pub end_rollback : {A : Type 0} → OperationReceipt → IoResult (Unit {0}) → App E A
  end_rollback receipt (IoResult.ok _) =
      journal_and_fail fa rollback_required
        (record receipt { source_exists = true; destination_exists = false; stage = rolled_back })
        move_verification_failed
  end_rollback receipt (IoResult.err _) = do
    source_there ← on_files (E.exists receipt.source)
    destination_there ← on_files (E.exists receipt.destination)
    journal_and_fail fa rollback_required
        (record receipt { source_exists = source_there; destination_exists = destination_there })
        move_verification_failed

  -- `rollback_after_rename`, which always ends in an error
  unfoldable pub rollback_after_rename : {A : Type 0} → OperationReceipt → App E A
  rollback_after_rename {A} moved = do
    receipt ← journal fa published (record moved { stage = rollback_required })
    renamed ← retrying fa (E.rename_no_replace receipt.destination receipt.source)
    end_rollback receipt renamed

  -- `same_volume_transfer`: the rename and its journal entry, then the verification
  unfoldable pub renamed_receipt : OperationReceipt → App E OperationReceipt
  renamed_receipt receipt = do
    expect (retrying fa (E.rename_no_replace receipt.source receipt.destination))
        (λ e. reconciliation_error fa receipt (rename_code fa e))
    journal fa planned
        (record receipt { source_exists = false; destination_exists = true; stage = published })

  unfoldable pub verify_renamed : OperationReceipt → App E OperationReceipt
  verify_renamed receipt = do
    locked ←
        expect (retrying fa (E.lock_for_delete receipt.destination))
          (λ _. reconciliation_error fa receipt move_verification_failed)
    identity ←
        expect (on_files (E.handle_identity locked))
          (λ _. reconciliation_error fa receipt move_verification_failed)
    post_hash ← expect (on_files (E.handle_hash locked)) (λ _. rollback_after_rename receipt)
    check (str_eq post_hash receipt.pre_operation_hash)
        (rollback_after_rename (record receipt { post_operation_hash = some post_hash }))
    identity_after ←
        expect (on_files (E.handle_identity locked))
          (λ _. reconciliation_error fa receipt move_verification_failed)
    check (same_identity identity_after identity)
        (reconciliation_error fa receipt move_verification_failed)
    journal fa published (record receipt { post_operation_hash = some post_hash; stage = complete })

  unfoldable pub same_volume_transfer : OperationReceipt → App E OperationReceipt
  same_volume_transfer receipt = do moved ← renamed_receipt receipt; verify_renamed moved
