-- ===== src/Applier/Entry.antt =====
-- file_ops.rs: `fingerprint`, `apply` and `undo`, and the choice of a free destination.
use intern.Prelude.{
  ℕ, zero, suc, ◌+◌, ◌%◌, ◌^◌, Text, String, Bool, true, false, not, ◌&&◌, Option, none, some, [],
  ◌∷◌, ◌++◌, codes, str_eq, ◌==◌, if◌then◌else◌,
}
use intern.Domain.Error.{
  ErrorCode, file_changed, state_conflict, destination_unavailable, io_error, invalid_data,
}
use intern.Receipt.{
  OperationReceipt, OperationDirection, apply, undo, OperationKind, rename, verified_copy, complete,
  is_stage, is_direction,
}
use intern.Store.Journal.{create_receipt, load_receipt}
use intern.Applier.World.{
  Env, FileApplier, App, pure, fail, diverge, ◌>>=◌, ◌>>◌, check, expect, on_files, on_store,
  retrying,
}
use intern.Applier.Failure.{lock_code}
use intern.Applier.Transfer.{Paths, temporary_path, plan, same_volume_transfer}
use intern.Applier.Copy.{cross_volume_transfer}

-- `==` on receipts, with `==` on paths, which compares their components
abbrev pub same_text : (Text → Text → Bool) → Option Text → Option Text → Bool
same_text same_path none none = true
same_text same_path (some s) (some t) = same_path s t
same_text same_path _ _ = false

abbrev pub same_hash : Option String → Option String → Bool
same_hash none none = true
same_hash (some s) (some t) = str_eq s t
same_hash _ _ = false

abbrev pub is_kind : OperationKind → OperationKind → Bool
is_kind rename rename = true
is_kind verified_copy verified_copy = true
is_kind _ _ = false

abbrev pub same_bool : Bool → Bool → Bool
same_bool true b = b
same_bool false b = not b

unfoldable pub same_receipt : (Text → Text → Bool) → OperationReceipt → OperationReceipt → Bool
same_receipt same_path a b =
    a.id == b.id
    && (a.queue_item_id == b.queue_item_id
        && (is_direction a.direction b.direction
            && (same_path a.source b.source
                && (same_path a.destination b.destination
                    && (same_text same_path a.temporary_path b.temporary_path
                        && (str_eq a.pre_operation_hash b.pre_operation_hash
                            && (same_hash a.post_operation_hash b.post_operation_hash
                                && (is_kind a.kind b.kind
                                    && (is_stage a.stage b.stage
                                        && (same_bool a.source_exists b.source_exists
                                            && (same_bool a.destination_exists b.destination_exists
                                                && same_bool a.temporary_exists
                                                    b.temporary_exists)))))))))))

module _ {E : Env} (fa : FileApplier) where
  unfoldable pub fingerprint : Text → App E String
  fingerprint path = expect (retrying fa (E.hash path)) (λ e. fail (lock_code fa io_error e))

  -- an optional value, where `None` is an error
  unfoldable pub require : {A : Type 0} → ErrorCode → Option A → App E A
  require code none = fail code
  require code (some a) = pure a

-- the name of the candidate `index`
abbrev pub candidate_name : Paths → Text → Text → Option Text → ℕ → Text
candidate_name paths file_name stem extension index =
    if index == 1
    then file_name
    else (stem ++ (codes " (" ++ (paths.decimal index ++ codes ")")))
      ++ elim extension [ none ↦ [] | some value ↦ b'.' ∷ value ]

-- the receipt is the durable one, and is a completed apply of the item
abbrev pub may_undo : Paths → ℕ → OperationReceipt → OperationReceipt → Bool
may_undo paths queue_item_id applied durable =
    same_receipt paths.same_path durable applied
    && (applied.queue_item_id == queue_item_id
        && (is_direction applied.direction apply && is_stage applied.stage complete))

module _ {E : Env} where
  -- The loop over the candidates, with `left` looks left. The numbers are those of a `u32`, which wraps
  -- where overflow is not checked, as in a release build, so that the loop starts again from 0.
  unfoldable pub first_free : (ℕ → Text) → ℕ → ℕ → App E Text
  first_free candidate zero index = diverge
  first_free candidate (suc left) index = do
    taken ← on_files (E.exists (candidate index))
    elim taken [
      | true ↦ first_free candidate left ((index + 1) % 2 ^ 32)
      | false ↦ pure (candidate index)
    ]

-- The looks after which the loop is cut: every number of a `u32` was looked at once then.
unfoldable pub suffixes : ℕ
suffixes = 2 ^ 32

module _ {E : Env} (paths : Paths) (fa : FileApplier) where
  -- `available_destination`
  unfoldable pub available_destination : Text → App E Text
  available_destination requested = do
    parent ← require fa destination_unavailable (paths.parent requested)
    stem ← require fa destination_unavailable (paths.file_stem_text requested)
    file_name ← require fa destination_unavailable (paths.file_name requested)
    first_free
        (λ index.
          paths.join parent
            (candidate_name paths file_name stem (paths.extension_text requested) index))
        suffixes 1

  -- The rest of `transfer`, on one volume and between two.
  unfoldable pub transfer_within :
      ℕ → OperationDirection → Text → Text → String → App E OperationReceipt
  transfer_within queue_item_id direction source destination expected_fingerprint = do
    pre_hash ← expect (retrying fa (E.hash source)) (λ e. fail (lock_code fa file_changed e))
    check (str_eq pre_hash expected_fingerprint) (fail file_changed)
    receipt ← on_store fa (λ c.
        create_receipt c queue_item_id
          (plan queue_item_id direction source destination none pre_hash rename))
    same_volume_transfer fa receipt

  unfoldable pub transfer_across :
      ℕ → OperationDirection → Text → Text → String → App E OperationReceipt
  transfer_across queue_item_id direction source destination expected_fingerprint = do
    locked ←
        expect (retrying fa (E.lock_for_delete source)) (λ e. fail (lock_code fa file_changed e))
    identity ← expect (on_files (E.handle_identity locked)) (λ _. fail file_changed)
    pre_hash ← expect (on_files (E.handle_hash locked)) (λ _. fail file_changed)
    check (str_eq pre_hash expected_fingerprint) (fail file_changed)
    unique ← on_files E.unique
    receipt ← on_store fa (λ c. create_receipt c queue_item_id (
        plan queue_item_id direction source destination
          (some (temporary_path paths destination unique)) pre_hash verified_copy))
    cross_volume_transfer fa receipt identity locked

  unfoldable pub transfer : ℕ → OperationDirection → Text → Text → String → App E OperationReceipt
  transfer queue_item_id direction source destination expected_fingerprint = do
    occupied ← on_files (E.exists destination)
    check (not occupied) (fail destination_unavailable)
    same_volume ←
        expect (retrying fa (E.same_volume source destination))
          (λ e. fail (lock_code fa destination_unavailable e))
    if same_volume
        then transfer_within queue_item_id direction source destination expected_fingerprint
        else transfer_across queue_item_id direction source destination expected_fingerprint

  unfoldable pub apply_to : ℕ → Text → Text → String → App E OperationReceipt
  apply_to queue_item_id source requested_destination expected_fingerprint = do
    destination ← available_destination requested_destination
    transfer queue_item_id apply source destination expected_fingerprint

  unfoldable pub undo_from : ℕ → OperationReceipt → App E OperationReceipt
  undo_from queue_item_id applied = do
    row ← on_store fa (λ _. load_receipt queue_item_id)
    durable ← require fa state_conflict row
    check (may_undo paths queue_item_id applied durable.receipt) (fail state_conflict)
    occupied ← on_files (E.exists applied.source)
    check (not occupied) (fail destination_unavailable)
    expected ← require fa invalid_data applied.post_operation_hash
    transfer queue_item_id undo applied.destination applied.source expected
