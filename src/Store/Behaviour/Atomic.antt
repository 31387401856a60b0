-- ===== src/Store/Behaviour/Atomic.antt =====
-- An operation that fails leaves no trace.
use intern.Prelude.{
  ℕ, ◌≤◌, ◌≡◌, refl, Bool, true, false, ◌&&◌, Option, none, some, arith, ◌==◌, if◌then◌else◌,
}
use intern.Domain.{
  QueueStatus, failed, queued, completed, is_status, needs_review, can_transition_to,
}
use intern.Domain.Error.{ErrorCode, InternResult, ok, err}
use intern.Store.Db.{Db, QueueRow, Ctx}
use intern.Store.Tx.{
  Tx, ◌>>◌, guard, settle, settle_ending, Ending, commit, rollback, transaction, transaction_ending,
  cas_items, query_one, update_items,
}
use intern.Store.Session.{open_session, close_session}
use intern.Store.Queue.{
  enqueue, claim_next, transition, released, requeued, cas_status, manual_retry, flagged_duplicate,
  retry_duplicate, is_reviewable, complete_keep_original, recover_interrupted, clear_terminal,
  discard_queued, delete_items, record_processing_failure,
}
use intern.Store.Applying.{
  begin_applying, complete_apply, complete_undo, finish_applying, renew_operation_lease,
  claim_applying_reconciliation,
}
use intern.Store.Reconcile.{
  resolve_reconciled_rollback, resolve_empty_applying, resolve_verified_operation,
  record_applying_rollback, defer_published_reconciliation, park_applying_for_review,
  claim_deferred_reconciliation,
}
use intern.Store.Journal.{create_receipt, update_receipt}
use intern.Store.Runs.{Op, error_of, perform}
use intern.Store.Invariant.Defs.{Inv}
use intern.Store.Behaviour.Swap.{row_at, swap_spec, swap_lem}

-- The database is as it was, if the result is an error.
abbrev Unchanged : {A : Type 0} → Db → Db × InternResult A → Type 0
Unchanged db out = (e : ErrorCode) → error_of out.1 ≡ some e → out.0 ≡ db

module _ {A : Type 0} (db : Db) where
  settle-Unchanged : (out : Db × InternResult A) → Unchanged db (settle db out)
  settle-Unchanged (after, ok a) e h = cc
  settle-Unchanged (after, err x) e h = refl

  settle_ending-Unchanged :
      (out : Db × InternResult (Ending A)) → Unchanged db (settle_ending db out)
  settle_ending-Unchanged (after, ok (commit a)) e h = cc
  settle_ending-Unchanged (after, ok (rollback a)) e h = cc
  settle_ending-Unchanged (after, err x) e h = refl

  transaction-Unchanged : (m : Tx A) → Unchanged db (transaction m db)
  unfolding transaction
  transaction-Unchanged m = settle-Unchanged (m db)

  guarded-Unchanged :
      (b : Bool) (x : ErrorCode) (m : Tx A)
      → Unchanged db (m db)
      → Unchanged db ((guard b x >> m) db)
  unfolding guard ◌>>◌
  guarded-Unchanged true x m h e k = h e k
  guarded-Unchanged false x m h e k = refl

swap_spec-Unchanged :
    (id : ℕ) (m : Db → QueueRow → Bool) (f : QueueRow → QueueRow) (db : Db) (o : Option QueueRow)
    → Unchanged db (swap_spec id m f db o)
swap_spec-Unchanged id m f db none e h = refl
swap_spec-Unchanged id m f db (some r) e h = ground arith

swap-Unchanged :
    (id : ℕ) (m : QueueRow → Bool) (f : QueueRow → QueueRow)
    → ((r : QueueRow) → (f r).id ≡ r.id)
    → ((r : QueueRow) → (f r).processing_failures ≤ r.processing_failures)
    → (db : Db) → Inv db
    → Unchanged db ((cas_items (λ _ r. r.id == id && m r) f >> query_one (λ r. r.id == id)) db)
swap-Unchanged id m f same fewer db v =
    rw (swap_lem id (λ _. m) f same fewer db v)
      (swap_spec-Unchanged id (λ _. m) f db (row_at id db))

cas_status-Unchanged :
    (c : Ctx) (id : ℕ) (expected next : QueueStatus) (reset : Bool) (db : Db)
    → Inv db
    → Unchanged db (cas_status c id expected next reset db)
unfolding cas_status
cas_status-Unchanged c id expected next reset db v =
    swap-Unchanged id (λ r. is_status r.status expected)
      (λ r. if reset then requeued c next r else released c next r) (λ r. ground arith)
      (λ r. ground arith) db v

abbrev renews_lease : Op → Bool
renews_lease (Op.renew_lease id) = true
renews_lease _ = false

-- Where the invariant holds, every operation but a lease renewal (`renew_lease`) that answers with
-- an error leaves the database as it was, whatever the error and wherever it occurs.
pub perform_error_unchanged :
    (c : Ctx) (op : Op) (db : Db) (e : ErrorCode)
    → Inv db
    → renews_lease op ≡ false
    → (perform c op db).1 ≡ some e
    → (perform c op db).0 ≡ db
unfolding perform
perform_error_unchanged c (Op.renew_lease id) db e v other h = cc
perform_error_unchanged c Op.open_session db e v other h = unfold open_session in ground arith
perform_error_unchanged c Op.close_session db e v other h = unfold close_session in cc
perform_error_unchanged c (Op.enqueue path hash) db e v other h =
    unfold enqueue in transaction-Unchanged db _ e h
perform_error_unchanged c Op.claim_next db e v other h =
    unfold claim_next transaction_ending in settle_ending-Unchanged db _ e h
perform_error_unchanged c Op.recover_interrupted db e v other h =
    unfold recover_interrupted update_items in cc
perform_error_unchanged c Op.clear_terminal db e v other h =
    unfold clear_terminal delete_items in cc
perform_error_unchanged c Op.discard_queued db e v other h =
    unfold discard_queued delete_items in cc
perform_error_unchanged c (Op.manual_retry id) db e v other h =
    unfold manual_retry in cas_status-Unchanged c id failed queued true db v e h
perform_error_unchanged c (Op.retry_duplicate id) db e v other h =
    unfold retry_duplicate in
    swap-Unchanged id (λ r. is_status r.status needs_review && flagged_duplicate r.error_code)
      (requeued c queued) (λ r. refl) (λ r. omega arith) db v e h
perform_error_unchanged c (Op.complete_keep_original id expected) db e v other h =
    unfold complete_keep_original in
    guarded-Unchanged db (is_reviewable expected) _ _
      (cas_status-Unchanged c id expected completed false db v) e h
perform_error_unchanged c (Op.transition id expected next x) db e v other h =
    unfold transition in
    guarded-Unchanged db (can_transition_to expected next) _ _ (transaction-Unchanged db _) e h
perform_error_unchanged c (Op.record_processing_failure id x) db e v other h =
    unfold record_processing_failure in transaction-Unchanged db _ e h
perform_error_unchanged c (Op.claim_applying_reconciliation id) db e v other h =
    unfold claim_applying_reconciliation in transaction-Unchanged db _ e h
perform_error_unchanged c (Op.resolve_empty_applying id) db e v other h =
    unfold resolve_empty_applying in transaction-Unchanged db _ e h
perform_error_unchanged c (Op.claim_deferred_reconciliation id) db e v other h =
    unfold claim_deferred_reconciliation in transaction-Unchanged db _ e h
perform_error_unchanged c (Op.begin_applying id x) db e v other h =
    unfold begin_applying in guarded-Unchanged db _ _ _ (transaction-Unchanged db _) e h
perform_error_unchanged c (Op.complete_apply id rc) db e v other h =
    unfold complete_apply finish_applying in transaction-Unchanged db _ e h
perform_error_unchanged c (Op.complete_undo id rc) db e v other h =
    unfold complete_undo finish_applying in transaction-Unchanged db _ e h
perform_error_unchanged c (Op.renew_operation_lease id rc stage) db e v other h =
    unfold renew_operation_lease in transaction-Unchanged db _ e h
perform_error_unchanged c (Op.resolve_reconciled_rollback id rc stage) db e v other h =
    unfold resolve_reconciled_rollback in
    guarded-Unchanged db _ _ _ (transaction-Unchanged db _) e h
perform_error_unchanged c (Op.resolve_verified_operation id rc stage) db e v other h =
    unfold resolve_verified_operation in guarded-Unchanged db _ _ _ (transaction-Unchanged db _) e h
perform_error_unchanged c (Op.record_applying_rollback id rc x) db e v other h =
    unfold record_applying_rollback in transaction-Unchanged db _ e h
perform_error_unchanged c (Op.defer_published_reconciliation id rc x) db e v other h =
    unfold defer_published_reconciliation in
    guarded-Unchanged db _ _ _ (transaction-Unchanged db _) e h
perform_error_unchanged c (Op.park_applying_for_review id rc x) db e v other h =
    unfold park_applying_for_review in transaction-Unchanged db _ e h
perform_error_unchanged c (Op.create_receipt id rc) db e v other h =
    unfold create_receipt in transaction-Unchanged db _ e h
perform_error_unchanged c (Op.update_receipt stage rc) db e v other h =
    unfold update_receipt in guarded-Unchanged db _ _ _ (transaction-Unchanged db _) e h
