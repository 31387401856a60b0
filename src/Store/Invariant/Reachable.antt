-- ===== src/Store/Invariant/Reachable.antt =====
-- The invariant holds in every database that any sessions reach.
use intern.Store.Db.{Db, Ctx}
use intern.Store.Runs.{Op, perform, run, Reach, start, step}
use intern.Store.Invariant.Defs.{Inv, Inv-new_db}
use intern.Store.Invariant.Queue
use intern.Store.Invariant.Claims
use intern.Store.Invariant.Applying
use intern.Store.Invariant.Receipts
use intern.Store.Invariant.Rows
use intern.Store.Invariant.Sessions
use intern.Store.Invariant.Binding

-- Every operation of every session, at any time, keeps the invariant, whether it succeeds or fails.
pub run-Inv : (c : Ctx) (op : Op) (db : Db) → Inv db → Inv (run c op db)
unfolding run perform
run-Inv c Op.open_session db v = ((Sessions.open_session-Keeps c).at db (v, tt)).0
run-Inv c Op.close_session db v = ((Sessions.close_session-Keeps c).at db (v, tt)).0
run-Inv c (Op.enqueue path hash) db v = ((Rows.enqueue-Keeps c path hash).at db (v, tt)).0
run-Inv c Op.claim_next db v = ((Claims.claim_next-Keeps c).at db (v, tt)).0
run-Inv c Op.recover_interrupted db v = ((Queue.recover_interrupted-Keeps c).at db (v, tt)).0
run-Inv c Op.clear_terminal db v = ((Rows.clear_terminal-Keeps c).at db (v, tt)).0
run-Inv c Op.discard_queued db v = ((Rows.discard_queued-Keeps c).at db (v, tt)).0
run-Inv c (Op.renew_lease id) db v = ((Queue.renew_lease-Keeps c id).at db (v, tt)).0
run-Inv c (Op.manual_retry id) db v = ((Queue.manual_retry-Keeps c id).at db (v, tt)).0
run-Inv c (Op.retry_duplicate id) db v = ((Queue.retry_duplicate-Keeps c id).at db (v, tt)).0
run-Inv c (Op.claim_applying_reconciliation id) db v =
    ((Applying.claim_applying_reconciliation-Keeps c id).at db (v, tt)).0
run-Inv c (Op.resolve_empty_applying id) db v =
    ((Applying.resolve_empty_applying-Keeps c id).at db (v, tt)).0
run-Inv c (Op.claim_deferred_reconciliation id) db v =
    ((Claims.claim_deferred_reconciliation-Keeps c id).at db (v, tt)).0
run-Inv c (Op.transition id expected next e) db v =
    ((Queue.transition-Keeps c id expected next e).at db (v, tt)).0
run-Inv c (Op.complete_keep_original id expected) db v =
    ((Queue.complete_keep_original-Keeps c id expected).at db (v, tt)).0
run-Inv c (Op.begin_applying id expected) db v =
    ((Claims.begin_applying-Keeps c id expected).at db (v, tt)).0
run-Inv c (Op.record_processing_failure id e) db v =
    ((Rows.record_processing_failure-Keeps c id e).at db (v, tt)).0
run-Inv c (Op.complete_apply id receipt) db v =
    ((Applying.complete_apply-Keeps c id receipt).at db (v, tt)).0
run-Inv c (Op.complete_undo id receipt) db v =
    ((Applying.complete_undo-Keeps c id receipt).at db (v, tt)).0
run-Inv c (Op.renew_operation_lease id receipt stage) db v =
    ((Applying.renew_operation_lease-Keeps c id receipt stage).at db (v, tt)).0
run-Inv c (Op.resolve_reconciled_rollback id receipt stage) db v =
    ((Receipts.resolve_reconciled_rollback-Keeps c id receipt stage).at db (v, tt)).0
run-Inv c (Op.resolve_verified_operation id receipt stage) db v =
    ((Receipts.resolve_verified_operation-Keeps c id receipt stage).at db (v, tt)).0
run-Inv c (Op.record_applying_rollback id receipt e) db v =
    ((Applying.record_applying_rollback-Keeps c id receipt e).at db (v, tt)).0
run-Inv c (Op.defer_published_reconciliation id receipt e) db v =
    ((Applying.defer_published_reconciliation-Keeps c id receipt e).at db (v, tt)).0
run-Inv c (Op.park_applying_for_review id receipt e) db v =
    ((Applying.park_applying_for_review-Keeps c id receipt e).at db (v, tt)).0
run-Inv c (Op.create_receipt id receipt) db v =
    ((Binding.create_receipt-Keeps c id receipt).at db (v, tt)).0
run-Inv c (Op.update_receipt stage receipt) db v =
    ((Receipts.update_receipt-Keeps c stage receipt).at db (v, tt)).0

-- In every database that any sessions reach from a new one, by any operations in any order and at
-- any times, the invariant holds: one item at most is being worked on; only such an item has an
-- owner, whose session is open, and exactly such items have a lease; exactly the items that are
-- being applied know the status they came from, and the receipt of such an item is its own and
-- goes the way that starts there; item and receipt ids and the pairs of path and content are
-- unique; an item has one open receipt at most, and fails at its second failure.
pub Reach-Inv : {db : Db} → Reach db → Inv db
Reach-Inv start = Inv-new_db
Reach-Inv (step r c op) = run-Inv c op _ (Reach-Inv r)
