-- ===== src/Applier/Undo.antt =====
-- About `undo`, file_ops.rs: what it asks before it moves a document back.
use mathlib.Core.List.{Mem}
use intern.Prelude.{ℕ, ◌≤◌, ◌≡◌, true, All, str_eq}
use intern.Prelude.Table
use intern.Receipt.{OperationReceipt, apply, complete, is_stage, is_direction}
use intern.Store.Db.{Db, ReceiptRow}
use intern.Store.Runs.{run_all}
use intern.Applier.World.{Env, World}
use intern.Applier.Transfer.{Paths}

-- the state of the files, and the database, once the other sessions have acted
abbrev pub files_then : {E : Env} → World E → E.State
files_then {E} w = (E.others w.db (E.now w.state).0).0

abbrev pub db_then : {E : Env} → World E → Db
db_then {E} w = run_all (E.others w.db (E.now w.state).0).1 w.db

-- the newest entry of an item in the journal
abbrev pub IsNewest : Db → ℕ → ReceiptRow → Type 0
IsNewest db k row =
    Mem row db.receipts
    × (row.queue_item_id ≡ k)
    × All (λ x. x.queue_item_id ≡ k → x.id ≤ row.id) db.receipts

-- the entry is the one of a completed apply of the item, with the paths that are to be exchanged
abbrev pub IsOfApply : Paths → ℕ → OperationReceipt → OperationReceipt → Type 0
IsOfApply paths k applied durable =
    (durable.id ≡ applied.id)
    × (applied.queue_item_id ≡ k)
    × (is_direction applied.direction apply ≡ true)
    × (is_stage applied.stage complete ≡ true)
    × (paths.same_path durable.source applied.source ≡ true)
    × (paths.same_path durable.destination applied.destination ≡ true)
    × (str_eq durable.pre_operation_hash applied.pre_operation_hash ≡ true)
