-- ===== src/Store/Runs.antt =====
-- The operations of `QueueStore` that change the database, as data, and the databases that any
-- sessions reach by them, in any order and at any times.
use intern.Prelude.{ℕ, Text, String, Option, none, some, List, [], ◌∷◌}
use intern.Domain.{QueueStatus}
use intern.Domain.Error.{ErrorCode, InternResult, ok, err}
use intern.Receipt.{OperationStage, OperationReceipt}
use intern.Store.Db.{Db, Ctx, new_db}
use intern.Store.Session
use intern.Store.Queue
use intern.Store.Applying
use intern.Store.Reconcile
use intern.Store.Journal

pub data Op : Type 0 where
  open_session close_session : Op
  enqueue : Text → String → Op
  claim_next recover_interrupted clear_terminal discard_queued : Op
  renew_lease manual_retry retry_duplicate claim_applying_reconciliation : ℕ → Op
  resolve_empty_applying claim_deferred_reconciliation : ℕ → Op
  transition : ℕ → QueueStatus → QueueStatus → Option ErrorCode → Op
  complete_keep_original begin_applying : ℕ → QueueStatus → Op
  record_processing_failure : ℕ → ErrorCode → Op
  complete_apply complete_undo : ℕ → ℕ → Op
  renew_operation_lease resolve_reconciled_rollback : ℕ → ℕ → OperationStage → Op
  resolve_verified_operation : ℕ → ℕ → OperationStage → Op
  record_applying_rollback defer_published_reconciliation : ℕ → ℕ → ErrorCode → Op
  park_applying_for_review : ℕ → ℕ → ErrorCode → Op
  create_receipt : ℕ → OperationReceipt → Op
  update_receipt : OperationStage → OperationReceipt → Op

abbrev pub error_of : {A : Type 0} → InternResult A → Option ErrorCode
error_of (ok a) = none
error_of (err e) = some e

-- the database after an operation, and the error if it returns one
abbrev pub report : {A : Type 0} → Db × InternResult A → Db × Option ErrorCode
report out = (out.0, error_of out.1)

unfoldable pub perform : Ctx → Op → Db → Db × Option ErrorCode
perform c open_session db = report (Session.open_session c db)
perform c close_session db = report (Session.close_session c db)
perform c (enqueue path hash) db = report (Queue.enqueue c path hash db)
perform c claim_next db = report (Queue.claim_next c db)
perform c recover_interrupted db = report (Queue.recover_interrupted c db)
perform c clear_terminal db = report (Queue.clear_terminal c db)
perform c discard_queued db = report (Queue.discard_queued c db)
perform c (renew_lease id) db = report (Queue.renew_lease c id db)
perform c (manual_retry id) db = report (Queue.manual_retry c id db)
perform c (retry_duplicate id) db = report (Queue.retry_duplicate c id db)
perform c (claim_applying_reconciliation id) db =
    report (Applying.claim_applying_reconciliation c id db)
perform c (resolve_empty_applying id) db = report (Reconcile.resolve_empty_applying c id db)
perform c (claim_deferred_reconciliation id) db =
    report (Reconcile.claim_deferred_reconciliation c id db)
perform c (transition id expected next e) db = report (Queue.transition c id expected next e db)
perform c (complete_keep_original id expected) db =
    report (Queue.complete_keep_original c id expected db)
perform c (begin_applying id expected) db = report (Applying.begin_applying c id expected db)
perform c (record_processing_failure id e) db = report (Queue.record_processing_failure c id e db)
perform c (complete_apply id receipt) db = report (Applying.complete_apply c id receipt db)
perform c (complete_undo id receipt) db = report (Applying.complete_undo c id receipt db)
perform c (renew_operation_lease id receipt stage) db =
    report (Applying.renew_operation_lease c id receipt stage db)
perform c (resolve_reconciled_rollback id receipt stage) db =
    report (Reconcile.resolve_reconciled_rollback c id receipt stage db)
perform c (resolve_verified_operation id receipt stage) db =
    report (Reconcile.resolve_verified_operation c id receipt stage db)
perform c (record_applying_rollback id receipt e) db =
    report (Reconcile.record_applying_rollback c id receipt e db)
perform c (defer_published_reconciliation id receipt e) db =
    report (Reconcile.defer_published_reconciliation c id receipt e db)
perform c (park_applying_for_review id receipt e) db =
    report (Reconcile.park_applying_for_review c id receipt e db)
perform c (create_receipt id receipt) db = report (Journal.create_receipt c id receipt db)
perform c (update_receipt stage receipt) db = report (Journal.update_receipt c stage receipt db)

unfoldable pub run : Ctx → Op → Db → Db
unfolding perform
run c op db = (perform c op db).0

-- `db` is reached from a new database: each step is one operation of one session.
pub data Reach : Db → Type 0 where
  start : Reach new_db
  step : {db : Db} → Reach db → (c : Ctx) (op : Op) → Reach (run c op db)

-- one operation after the other, each with its context
unfoldable pub run_all : List (Ctx × Op) → Db → Db
run_all [] db = db
run_all ((c, op) ∷ ops) db = run_all ops (run c op db)

-- A property that each operation keeps holds after them all.
pub run_all-keeps :
    (P : Db → Type 0)
    → ((c : Ctx) (op : Op) (db : Db) → P db → P (run c op db))
    → (ops : List (Ctx × Op)) (db : Db) → P db
    → P (run_all ops db)
unfolding run_all
run_all-keeps P keep [] db h = h
run_all-keeps P keep ((c, op) ∷ ops) db h = run_all-keeps P keep ops (run c op db) (keep c op db h)
