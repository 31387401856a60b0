-- ===== src/Store/Invariant/Applying.antt =====
-- The operations on an item that is being applied keep the invariant, the journal apart.
use intern.Prelude.{
  ℕ, String, ◌≡◌, refl, ap, Bool, true, false, ◌&&◌, not, Option, none, some, arith, ◌==◌, has_num,
  is_some,
}
use intern.Prelude.Table.{exists_where}
use intern.Domain.{QueueStatus, ready, completed, applying, is_status, is_active}
use intern.Domain.Error.{ErrorCode}
use intern.Receipt.{OperationDirection, apply, undo, OperationStage, complete, is_direction}
use intern.Store.Db.{Db, QueueRow, Ctx}
use intern.Store.Session.{owner_gone}
use intern.Store.Queue.{renewed, released}
use intern.Store.Applying.{
  was, was_applicable, owned_applying, receipt_at, renew_operation_lease, finish_applying,
  complete_apply, complete_undo, adopted, claim_applying_reconciliation,
}
use intern.Store.Reconcile.{
  restored, resolve_empty_applying, rollback_noted, record_applying_rollback, parked,
  published_apply, defer_published_reconciliation, park_applying_for_review,
}
use intern.Store.Invariant.Defs.{Keeps, RowOk}
use intern.Store.Invariant.Rules.{
  Safe, quiet_flight, Keeps-touched_swap, Keeps-swap, Keeps-guarded, Keeps-transaction,
}

-- An UPDATE of an item that this session is applying, under one more condition: what it has to keep
-- is that the row stays sound.
module _ (o : Option String) (c : Ctx) (id : ℕ) (more : Db → QueueRow → Bool) where
  pub held-Safe :
      (f : QueueRow → QueueRow)
      → ((r : QueueRow) → (f r).id ≡ r.id)
      → ((r : QueueRow) → (f r).source_path_key ≡ r.source_path_key)
      → ((r : QueueRow) → (f r).source_hash ≡ r.source_hash)
      → ((db : Db) (r : QueueRow)
          → r.status ≡ applying
          → more db r ≡ true
          → RowOk db.sessions db.receipts r
          → RowOk db.sessions db.receipts (f r))
      → Safe o (λ db r. owned_applying c id r && more db r) f
  held-Safe f same_id same_key same_hash sound = record {
    same_id = same_id;
    same_key = same_key;
    same_hash = same_hash;
    sound = λ db v r hit h. sound db r (held r _ hit) (ground arith) h;
    flight = λ db v. quiet_flight _ f db v.0 (λ r hit h. ap is_active (held r _ hit));
  }
    where
      held : (r : QueueRow) (b : Bool) → (owned_applying c id r && b) ≡ true → r.status ≡ applying
      held r b hit = ground arith

  -- The row keeps its status, and only the lease and the notes of a reconciliation change.
  pub renewed-Safe : Safe o (λ db r. owned_applying c id r && more db r) (renewed c)
  renewed-Safe =
      held-Safe (renewed c) (λ r. refl) (λ r. refl) (λ r. refl)
        (λ db r applies _ h. ground (arith, h.receipt_fits, h.owner_open))

  pub noted-Safe :
      (receipt_id : ℕ) (error : ErrorCode)
      → Safe o (λ db r. owned_applying c id r && more db r) (rollback_noted c receipt_id error)
  noted-Safe receipt_id error =
      held-Safe (rollback_noted c receipt_id error) (λ r. refl) (λ r. refl) (λ r. refl)
        (λ db r applies _ h. ground arith)

  -- The row leaves `applying`, for a status in which no work is done.
  pub released-Safe :
      (next : QueueStatus)
      → is_active next ≡ false
      → Safe o (λ db r. owned_applying c id r && more db r) (released c next)
  released-Safe next idle =
      held-Safe (released c next) (λ r. refl) (λ r. refl) (λ r. refl)
        (λ db r applies _ h. ground arith)

  pub parked-Safe :
      (receipt_id : ℕ) (error : ErrorCode)
      → Safe o (λ db r. owned_applying c id r && more db r) (parked c receipt_id error)
  parked-Safe receipt_id error =
      held-Safe (parked c receipt_id error) (λ r. refl) (λ r. refl) (λ r. refl)
        (λ db r applies _ h. ground arith)

  pub restored-Safe : Safe o (λ db r. owned_applying c id r && more db r) (restored c)
  restored-Safe =
      held-Safe (restored c) (λ r. refl) (λ r. refl) (λ r. refl) (λ db r applies _ h. ground arith)

adopted-Safe :
    (c : Ctx) (id : ℕ)
    → Safe
        (some c.session)
        (λ db r.
          r.id == id
          && (is_status r.status applying && owner_gone c db r.owner_session r.lease_expires_at))
        (adopted c)
adopted-Safe c id = record {
  same_id = λ r. refl;
  same_key = λ r. refl;
  same_hash = λ r. refl;
  sound = λ db v r hit h. ground (arith, v.1);
  flight = λ db v. quiet_flight _ _ db v.0 (λ r hit h. ground arith);
}

module _ (c : Ctx) (id : ℕ) where
  pub claim_applying_reconciliation-Keeps : Keeps none (claim_applying_reconciliation c id)
  unfolding claim_applying_reconciliation
  claim_applying_reconciliation-Keeps = Keeps-touched_swap _ _ id c (adopted-Safe c id)

  pub resolve_empty_applying-Keeps : Keeps none (resolve_empty_applying c id)
  unfolding resolve_empty_applying
  resolve_empty_applying-Keeps = Keeps-touched_swap _ _ id c (
      restored-Safe (some c.session) c id (λ _ r.
        not (is_some r.active_receipt_id)
        && (not (r.applying_epoch == 0) && was_applicable r.previous_status)))

  pub renew_operation_lease-Keeps :
      (receipt_id : ℕ) (stage : OperationStage)
      → Keeps none (renew_operation_lease c id receipt_id stage)
  unfolding renew_operation_lease
  renew_operation_lease-Keeps receipt_id stage = Keeps-touched_swap _ _ id c (
      renewed-Safe (some c.session) c id (λ db r.
        has_num r.active_receipt_id receipt_id
        && exists_where (receipt_at id receipt_id stage) db.receipts))

  finish_applying-Keeps :
      (receipt_id : ℕ) (next previous : QueueStatus) (direction : OperationDirection)
      → is_active next ≡ false
      → Keeps none (finish_applying c id receipt_id next previous direction)
  unfolding finish_applying
  finish_applying-Keeps receipt_id next previous direction idle = Keeps-touched_swap _ _ id c (
      released-Safe (some c.session) c id
        (λ db r.
          was r.previous_status previous
          && (has_num r.active_receipt_id receipt_id
              && exists_where
                  (λ rc.
                    receipt_at id receipt_id complete rc && is_direction rc.direction direction)
                  db.receipts))
        next idle)

  pub complete_apply-Keeps : (receipt_id : ℕ) → Keeps none (complete_apply c id receipt_id)
  unfolding complete_apply
  complete_apply-Keeps receipt_id = finish_applying-Keeps receipt_id completed ready apply refl

  pub complete_undo-Keeps : (receipt_id : ℕ) → Keeps none (complete_undo c id receipt_id)
  unfolding complete_undo
  complete_undo-Keeps receipt_id = finish_applying-Keeps receipt_id ready completed undo refl

  pub record_applying_rollback-Keeps :
      (receipt_id : ℕ) (error : ErrorCode)
      → Keeps none (record_applying_rollback c id receipt_id error)
  unfolding record_applying_rollback
  record_applying_rollback-Keeps receipt_id error = Keeps-touched_swap _ _ id c (
      noted-Safe (some c.session) c id (λ _ r. has_num r.active_receipt_id receipt_id) receipt_id
        error)

  pub park_applying_for_review-Keeps :
      (receipt_id : ℕ) (error : ErrorCode)
      → Keeps none (park_applying_for_review c id receipt_id error)
  unfolding park_applying_for_review
  park_applying_for_review-Keeps receipt_id error = Keeps-transaction none _ (
      Keeps-swap _ _ id none
        (parked-Safe none c id (λ _ r. has_num r.active_receipt_id receipt_id) receipt_id error))

  pub defer_published_reconciliation-Keeps :
      (receipt_id : ℕ) (error : ErrorCode)
      → Keeps none (defer_published_reconciliation c id receipt_id error)
  unfolding defer_published_reconciliation
  defer_published_reconciliation-Keeps receipt_id error = Keeps-guarded none _ _ _ (λ _.
      Keeps-transaction none _ (
        Keeps-swap _ _ id none (
          parked-Safe none c id
            (λ db r.
              has_num r.active_receipt_id receipt_id
              && exists_where (published_apply id receipt_id) db.receipts)
            receipt_id error)))
