-- ===== src/Tests/Applier.antt =====
-- File operations on a disk in memory: a document that is moved, and a move that was interrupted.
use intern.Prelude.{
  ℕ, ◌≤◌, ◌<◌, subst, Text, ◌≡◌, ◌≢◌, refl, Bool, true, false, none, some, [], ◌∷◌, text_eq, ◌+◌,
  is_some, arith, inr,
}
use intern.Domain.{ready, completed}
use intern.Receipt.{OperationReceipt, apply, undo, is_stage, complete}
use intern.Retry.Defs.{default, run_in}
use intern.Store.Db.{Db, ReceiptRow}
use intern.Store.Runs.{Op, run, Reach, step}
use intern.Store.Invariant.Reachable.{Reach-Inv}
use intern.Store.Plans.{Planned}
use intern.Store.Plans.Operations.{run-Planned}
use intern.Applier.World
use intern.Applier.World.{
  FileApplier, World, Outcome, expect, settle_io, on_files, on_store, retrying, catch,
}
use intern.Applier.Failure.{journal, reconciliation_error}
use intern.Applier.Copy.{
  temporary_of, copied_or_failed, verified_copy_of, published_or_failed, publish_copy,
  delete_source, finish_copy, cross_volume_transfer,
}
use intern.Store.Applying.{renew_operation_lease}
use intern.Store.Runs.{run_all}
use intern.Retry.Defs.{turns_in}
use intern.Applier.Transfer.{
  Paths, temporary_path, renamed_receipt, verify_renamed, same_volume_transfer,
}
use intern.Applier.Entry.{transfer, transfer_within, transfer_across, available_destination}
use intern.Applier.Reconcile.{settle_active}
use intern.Applier.Choice.{IsLooking, numbered_path, available_destination_lem}
use intern.Applier.Safety.Transfer.{Kept}
use intern.Applier.Safety.Document.{transfer_loses_nothing, settle_active_loses_nothing}
use intern.Tests.Store.{anna, scan, memo}
use intern.Tests.Epoch.{applied, ready_db, ready_db-Reach, plan, epochs}
use intern.Tests.Disk.{Disk, set, disk, disk-IsLawful, texts_differ}

abbrev applier : FileApplier
applier = record {
  session = "anna";
  to_lowercase = λ t. t;
  to_string_lossy = λ t. t;
  windows = true;
  lock_retry = default;
}

-- paths with no folders
abbrev flat : Paths
flat = record {
  parent = λ p. some [];
  file_name = λ p. some p;
  file_name_text = λ p. some p;
  file_stem_text = λ p. some p;
  extension_text = λ p. none;
  join = λ p q. q;
  with_file_name = λ p q. q;
  decimal = λ n. (n + 48) ∷ [];
  same_path = text_eq;
}

abbrev begun_db : Db
begun_db = run anna (Op.begin_applying 1 ready) ready_db

begun_db-Reach : Reach begun_db
begun_db-Reach = step ready_db-Reach anna (Op.begin_applying 1 ready)

abbrev only : Text → Disk
only p = set p (some "s1") (λ x. none)

-- the document is at its source
abbrev filed : World (disk true)
filed = record { state = only scan; db = begun_db }

there : only scan scan ≡ some "s1"
unfolding text_eq
there = refl

apart_from_source : temporary_path flat memo (b'1' ∷ []) ≢ scan
unfolding temporary_path text_eq
apart_from_source = texts_differ _ _ refl

apart_from_destination : temporary_path flat memo (b'1' ∷ []) ≢ memo
unfolding temporary_path text_eq
apart_from_destination = texts_differ _ _ refl

transfer_loses_nothing_example :
    Kept
      (λ (s : Disk). s)
      scan
      memo
      "s1"
      (transfer flat applier 1 apply scan memo "s1" filed).0.state
    × ((y : OperationReceipt)
        → (transfer flat applier 1 apply scan memo "s1" filed).1 ≡ Outcome.ok y
        → (transfer flat applier 1 apply scan memo "s1" filed).0.state memo ≡ some "s1")
transfer_loses_nothing_example =
    transfer_loses_nothing (disk true) (λ s. s) (λ h. h) flat applier 1 apply scan memo "s1" "s1"
      filed (disk-IsLawful true scan memo) refl refl
      (λ s. (apart_from_source, apart_from_destination)) (Reach-Inv begun_db-Reach) there

-- the session ended after the rename, and before its entry
abbrev planned_db : Db
planned_db = run anna (Op.create_receipt 1 plan) begun_db

abbrev row : ReceiptRow
row = record { receipt = record plan { id = 1 }; created_at = 100; updated_at = 100 }

abbrev interrupted_move : World (disk true)
interrupted_move = record { state = only memo; db = planned_db }

row-Planned : Planned row.receipt planned_db
unfolding epochs
row-Planned = (((λ e. (refl, refl, refl, refl, refl, refl)), tt), omega arith)

moved : only memo memo ≡ some "s1"
unfolding text_eq
moved = refl

scan_differs : scan ≢ memo
unfolding text_eq
scan_differs = texts_differ _ _ refl

settle_active_loses_nothing_example :
    Kept
      (λ (s : Disk). s)
      scan
      memo
      "s1"
      (settle_active applier 1 (some row) interrupted_move).0.state
settle_active_loses_nothing_example =
    settle_active_loses_nothing (disk true) (λ s. s) (λ h. h) applier 1 row interrupted_move
      (disk-IsLawful true scan memo) tt scan_differs row-Planned (inr moved)

run-Planned_example : Planned row.receipt (run anna (Op.claim_applying_reconciliation 1) planned_db)
run-Planned_example =
    run-Planned row.receipt anna (Op.claim_applying_reconciliation 1) planned_db row-Planned

disk-IsLooking : IsLooking (disk true) (λ s p. is_some (s p))
disk-IsLooking = record { says = λ p s. refl; still = λ p q s. refl }

abbrev taken_once : World (disk true)
taken_once = record filed { state = only memo }

only_first_taken :
    (j : ℕ) → 1 ≤ j → j < 2 → is_some (only memo (numbered_path flat [] memo memo none j)) ≡ true
unfolding text_eq
only_first_taken j l k =
    let one : 1 ≡ j = omega (arith, l, k) in
    subst (λ i. is_some (only memo (numbered_path flat [] memo memo none i)) ≡ true) one refl

second_free : is_some (only memo (numbered_path flat [] memo memo none 2)) ≡ false
unfolding text_eq
second_free = refl

available_destination_lem_example :
    (available_destination flat applier memo taken_once).1
    ≡ Outcome.ok (numbered_path flat [] memo memo none 2)
available_destination_lem_example =
    available_destination_lem (disk true) (λ s p. is_some (s p)) disk-IsLooking flat applier memo []
      memo memo taken_once 2 refl refl refl (omega arith) (omega arith) second_free only_first_taken

unfoldable pub moves : Unit {0}
unfolding epochs transfer transfer_within transfer_across same_volume_transfer renamed_receipt
    verify_renamed cross_volume_transfer temporary_of copied_or_failed verified_copy_of
    published_or_failed publish_copy delete_source finish_copy journal reconciliation_error
    World.◌>>=◌ World.◌>>◌ World.pure World.fail World.check expect settle_io on_files on_store
    retrying run_in turns_in default catch run_all text_eq temporary_path renew_operation_lease
moves = tt

-- A rename on one volume, and a copy between two: the document is at its destination only, and the
-- receipt is complete.
is_complete : Outcome OperationReceipt → Bool
is_complete (Outcome.ok receipt) = is_stage receipt.stage complete
is_complete _ = false

renamed : (transfer flat applier 1 apply scan memo "s1" filed).0.state memo ≡ some "s1"
unfolding moves
renamed = refl

rename_complete : is_complete (transfer flat applier 1 apply scan memo "s1" filed).1 ≡ true
unfolding moves is_complete
rename_complete = refl

abbrev on_another : World (disk false)
on_another = record { state = only scan; db = begun_db }

copied_there : (transfer flat applier 1 apply scan memo "s1" on_another).0.state memo ≡ some "s1"
unfolding moves
copied_there = refl

source_deleted : (transfer flat applier 1 apply scan memo "s1" on_another).0.state scan ≡ none
unfolding moves
source_deleted = refl

copy_complete : is_complete (transfer flat applier 1 apply scan memo "s1" on_another).1 ≡ true
unfolding moves is_complete
copy_complete = refl

-- The document was moved and its item completed, and the item is begun again: its receipt is undone.
abbrev undo_db : Db
undo_db = run anna (Op.begin_applying 1 completed) (run anna (Op.complete_apply 1 1) applied)

abbrev finished : OperationReceipt
finished = record plan {
  id = 1;
  stage = complete;
  source_exists = false;
  destination_exists = true;
  post_operation_hash = some "s1";
}

abbrev moved_away : World (disk true)
moved_away = record { state = only memo; db = undo_db }

abbrev undone : OperationReceipt
undone = record plan {
  id = 2;
  direction = undo;
  source = memo;
  destination = scan;
  stage = complete;
  source_exists = false;
  destination_exists = true;
  post_operation_hash = some "s1";
}
