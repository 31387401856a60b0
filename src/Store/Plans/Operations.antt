-- ===== src/Store/Plans/Operations.antt =====
-- About the operations on file operations, store.rs, and the plans of the journal.
use intern.Prelude.{
  ℕ, Bool, Bool-cases, inl, inr, Option, none, some, refl, arith, All-append, if◌then◌else◌,
}
use intern.Domain.Error.{ErrorCode}
use intern.Receipt.{
  OperationReceipt, OperationStage, planned, copied, verified, published, rollback_required,
  rolled_back, complete, is_stage,
}
use intern.Store.Db.{Db, QueueRow, ReceiptRow, Ctx}
use intern.Store.Tx.{cas_receipts}
use intern.Store.Session.{close_session}
use intern.Store.Queue.{
  manual_retry, retry_duplicate, recover_interrupted, clear_terminal, discard_queued,
}
use intern.Store.Applying.{
  renew_operation_lease, finish_applying, complete_apply, complete_undo,
  claim_applying_reconciliation,
}
use intern.Store.Reconcile.{
  rolled_back_receipt, cleaned_receipt, complete_receipt_unless_done, resolve_reconciled_rollback,
  resolve_empty_applying, resolve_verified_operation, record_applying_rollback,
  defer_published_reconciliation, park_applying_for_review, claim_deferred_reconciliation,
}
use intern.Store.Journal.{insert_receipt, create_receipt, previous_of, update_receipt}
use intern.Store.Runs.{Op, perform, run}
use intern.Store.Plans.{
  Planned, Leaves, Leaves-pure, Leaves-require, Leaves-read, Leaves-transaction, Leaves-bind,
  Leaves-then, Leaves-guard, Leaves-update_items, Leaves-cas_items, Leaves-cas_receipts,
  Leaves-touch, Leaves-swap, Leaves-touched_swap,
}
use intern.Store.Plans.Queueing.{
  Leaves-open_session, Leaves-enqueue, Leaves-claim_next, Leaves-renew_lease, Leaves-transition,
  Leaves-cas_status, Leaves-keep_original, Leaves-delete_items, Leaves-processing_failure,
  Leaves-begin,
}

module _ (r : OperationReceipt) where
  pub Leaves-renew :
      (c : Ctx) (k j : ℕ) (s : OperationStage) → Leaves r (renew_operation_lease c k j s)
  unfolding renew_operation_lease
  Leaves-renew c k j s = Leaves-touched_swap r _ _ _ _

  Leaves-complete_apply : (c : Ctx) (k j : ℕ) → Leaves r (complete_apply c k j)
  unfolding complete_apply finish_applying
  Leaves-complete_apply c k j = Leaves-touched_swap r _ _ _ _

  Leaves-complete_undo : (c : Ctx) (k j : ℕ) → Leaves r (complete_undo c k j)
  unfolding complete_undo finish_applying
  Leaves-complete_undo c k j = Leaves-touched_swap r _ _ _ _

  Leaves-adopt : (c : Ctx) (k : ℕ) → Leaves r (claim_applying_reconciliation c k)
  unfolding claim_applying_reconciliation
  Leaves-adopt c k = Leaves-touched_swap r _ _ _ _

  pub Leaves-resolve_empty : (c : Ctx) (k : ℕ) → Leaves r (resolve_empty_applying c k)
  unfolding resolve_empty_applying
  Leaves-resolve_empty c k = Leaves-touched_swap r _ _ _ _

  Leaves-reclaim : (c : Ctx) (k : ℕ) → Leaves r (claim_deferred_reconciliation c k)
  unfolding claim_deferred_reconciliation
  Leaves-reclaim c k = Leaves-touched_swap r _ _ _ _

  pub Leaves-record_rollback :
      (c : Ctx) (k j : ℕ) (e : ErrorCode) → Leaves r (record_applying_rollback c k j e)
  unfolding record_applying_rollback
  Leaves-record_rollback c k j e = Leaves-touched_swap r _ _ _ _

  pub Leaves-defer :
      (c : Ctx) (k j : ℕ) (e : ErrorCode) → Leaves r (defer_published_reconciliation c k j e)
  unfolding defer_published_reconciliation
  Leaves-defer c k j e =
      Leaves-then r _ _ (Leaves-guard r _ _) (Leaves-transaction r _ (Leaves-swap r _ _ _))

  pub Leaves-park :
      (c : Ctx) (k j : ℕ) (e : ErrorCode) → Leaves r (park_applying_for_review c k j e)
  unfolding park_applying_for_review
  Leaves-park c k j e = Leaves-transaction r _ (Leaves-swap r _ _ _)

  Leaves-settle_receipt :
      (c : Ctx) (s : OperationStage) (p : Db → ReceiptRow → Bool)
      → Leaves r (
          cas_receipts p
            (if is_stage s rolled_back then cleaned_receipt c else rolled_back_receipt c))
  Leaves-settle_receipt c s p = elim (Bool-cases (is_stage s rolled_back)) [
    | inl e ↦ rw e (Leaves-cas_receipts r p _ (λ rc. refl) (λ rc h. ground arith))
    | inr e ↦ rw e (Leaves-cas_receipts r p _ (λ rc. refl) (λ rc h. ground arith))
  ]

  pub Leaves-resolve_rollback :
      (c : Ctx) (k j : ℕ) (s : OperationStage) → Leaves r (resolve_reconciled_rollback c k j s)
  unfolding resolve_reconciled_rollback
  Leaves-resolve_rollback c k j s = Leaves-then r _ _ (Leaves-guard r _ _) (
      Leaves-transaction r _ (
        Leaves-then r _ _ (Leaves-touch r c)
          (Leaves-then r _ _ (Leaves-settle_receipt c s _) (Leaves-swap r _ _ _))))

  Leaves-complete_receipt :
      (c : Ctx) (k j : ℕ) (s : OperationStage) → Leaves r (complete_receipt_unless_done c k j s)
  unfolding complete_receipt_unless_done
  Leaves-complete_receipt c k j complete = Leaves-pure r _
  Leaves-complete_receipt c k j planned =
      Leaves-cas_receipts r _ _ (λ rc. refl) (λ rc h. ground arith)
  Leaves-complete_receipt c k j copied =
      Leaves-cas_receipts r _ _ (λ rc. refl) (λ rc h. ground arith)
  Leaves-complete_receipt c k j verified =
      Leaves-cas_receipts r _ _ (λ rc. refl) (λ rc h. ground arith)
  Leaves-complete_receipt c k j published =
      Leaves-cas_receipts r _ _ (λ rc. refl) (λ rc h. ground arith)
  Leaves-complete_receipt c k j rollback_required =
      Leaves-cas_receipts r _ _ (λ rc. refl) (λ rc h. ground arith)
  Leaves-complete_receipt c k j rolled_back =
      Leaves-cas_receipts r _ _ (λ rc. refl) (λ rc h. ground arith)

  pub Leaves-resolve_verified :
      (c : Ctx) (k j : ℕ) (s : OperationStage) → Leaves r (resolve_verified_operation c k j s)
  unfolding resolve_verified_operation
  Leaves-resolve_verified c k j s = Leaves-then r _ _ (Leaves-guard r _ _) (
      Leaves-transaction r _ (
        Leaves-then r _ _ (Leaves-touch r c) (
          Leaves-bind r _ _ (Leaves-read r _) λ found.
            Leaves-bind r _ _ (Leaves-require r _ found)
              λ rc. Leaves-then r _ _ (Leaves-complete_receipt c k j s) (Leaves-swap r _ _ _))))

  Leaves-insert_receipt : (c : Ctx) (x : OperationReceipt) → Leaves r (insert_receipt c x)
  unfolding insert_receipt
  Leaves-insert_receipt c x = record {
    at = λ db v. (
      All-append _ db.receipts _ v.0 ((λ e. absurd (omega (arith, e, v.1))), tt),
      omega (arith, v.1),
    );
  }

  Leaves-previous_of : (o : Option QueueRow) → Leaves r (previous_of o)
  Leaves-previous_of none = Leaves-pure r _
  Leaves-previous_of (some row) = Leaves-bind r _ _ (Leaves-require r _ _) (λ s. Leaves-pure r _)

  pub Leaves-create : (c : Ctx) (k : ℕ) (x : OperationReceipt) → Leaves r (create_receipt c k x)
  unfolding create_receipt
  Leaves-create c k x = Leaves-transaction r _ (
      Leaves-then r _ _ (Leaves-touch r c) (
        Leaves-bind r _ _ (Leaves-read r _) λ row.
          Leaves-bind r _ _ (Leaves-previous_of row) λ previous.
            Leaves-then r _ _ (Leaves-guard r _ _) (
              Leaves-bind r _ _ (Leaves-insert_receipt c _)
                λ id. Leaves-then r _ _ (Leaves-cas_items r _ _) (Leaves-pure r _))))

  pub Leaves-update :
      (c : Ctx) (s : OperationStage) (x : OperationReceipt) → Leaves r (update_receipt c s x)
  unfolding update_receipt
  Leaves-update c s x = Leaves-then r _ _ (Leaves-guard r _ _) (
      Leaves-transaction r _ (
        Leaves-then r _ _ (Leaves-touch r c) (
          Leaves-then r _ _ (Leaves-cas_items r _ _) (
            Leaves-then r _ _ (Leaves-cas_receipts r _ _ (λ rc. refl) (λ rc h. ground arith)) (
              Leaves-bind r _ _ (Leaves-read r _)
                λ row. Leaves-bind r _ _ (Leaves-require r _ row) λ rc. Leaves-pure r _)))))

-- If every row of the journal with a receipt's id has its source, destination, hash, kind, direction and
-- item, and that id was given out before, then so it is after any operation of any session, whether the
-- operation succeeds or fails.
pub run-Planned :
    (r : OperationReceipt) (c : Ctx) (op : Op) (db : Db) → Planned r db → Planned r (run c op db)
unfolding run perform
run-Planned r c Op.open_session db v = (Leaves-open_session r c).at db v
run-Planned r c Op.close_session db v = unfold close_session in v
run-Planned r c (Op.enqueue path hash) db v = (Leaves-enqueue r c path hash).at db v
run-Planned r c Op.claim_next db v = (Leaves-claim_next r c).at db v
run-Planned r c Op.recover_interrupted db v =
    unfold recover_interrupted in (Leaves-update_items r _ _).at db v
run-Planned r c Op.clear_terminal db v = unfold clear_terminal in (Leaves-delete_items r _).at db v
run-Planned r c Op.discard_queued db v = unfold discard_queued in (Leaves-delete_items r _).at db v
run-Planned r c (Op.renew_lease id) db v = (Leaves-renew_lease r c id).at db v
run-Planned r c (Op.manual_retry id) db v =
    unfold manual_retry in (Leaves-cas_status r c _ _ _ _).at db v
run-Planned r c (Op.retry_duplicate id) db v =
    unfold retry_duplicate in (Leaves-swap r _ _ _).at db v
run-Planned r c (Op.claim_applying_reconciliation id) db v = (Leaves-adopt r c id).at db v
run-Planned r c (Op.resolve_empty_applying id) db v = (Leaves-resolve_empty r c id).at db v
run-Planned r c (Op.claim_deferred_reconciliation id) db v = (Leaves-reclaim r c id).at db v
run-Planned r c (Op.transition id s t e) db v = (Leaves-transition r c id s t e).at db v
run-Planned r c (Op.complete_keep_original id s) db v = (Leaves-keep_original r c id s).at db v
run-Planned r c (Op.begin_applying id s) db v = (Leaves-begin r c id s).at db v
run-Planned r c (Op.record_processing_failure id e) db v =
    (Leaves-processing_failure r c id e).at db v
run-Planned r c (Op.complete_apply k j) db v = (Leaves-complete_apply r c k j).at db v
run-Planned r c (Op.complete_undo k j) db v = (Leaves-complete_undo r c k j).at db v
run-Planned r c (Op.renew_operation_lease k j s) db v = (Leaves-renew r c k j s).at db v
run-Planned r c (Op.resolve_reconciled_rollback k j s) db v =
    (Leaves-resolve_rollback r c k j s).at db v
run-Planned r c (Op.resolve_verified_operation k j s) db v =
    (Leaves-resolve_verified r c k j s).at db v
run-Planned r c (Op.record_applying_rollback k j e) db v =
    (Leaves-record_rollback r c k j e).at db v
run-Planned r c (Op.defer_published_reconciliation k j e) db v = (Leaves-defer r c k j e).at db v
run-Planned r c (Op.park_applying_for_review k j e) db v = (Leaves-park r c k j e).at db v
run-Planned r c (Op.create_receipt k x) db v = (Leaves-create r c k x).at db v
run-Planned r c (Op.update_receipt s x) db v = (Leaves-update r c s x).at db v
