-- ===== src/Store/Invariant/Receipts.antt =====
-- The operations that write the journal keep the invariant.
use intern.Prelude.{
  ℕ, ◌<◌, String, ◌≡◌, refl, ap, ◌∙◌, Bool, true, false, ◌&&◌, Option, none, some, arith,
  Bool-cases, inl, inr, ◌==◌, has_num, All-map, if◌then◌else◌,
}
use intern.Prelude.Table.{count_where, exists_where, update_where, find_where}
use intern.Prelude.Table
use intern.Domain.{is_active}
use intern.Receipt.{
  OperationDirection, apply, undo, OperationStage, complete, rolled_back, is_stage, is_open,
  can_advance_to, can_advance_to-open, is_stage_iff, OperationReceipt,
}
use intern.Store.Db.{Db, ReceiptRow, Ctx}
use intern.Store.Tx.{update_receipts, cas_receipts}
use intern.Store.Applying.{was, owned_applying, receipt_at, starts_from, leads_to}
use intern.Store.Reconcile.{
  cleaned_receipt, rolled_back_receipt, resolve_reconciled_rollback, completed_receipt,
  complete_receipt_unless_done, resolve_verified_operation,
}
use intern.Store.Journal.{open_of, updated_receipt, update_receipt}
use intern.Store.Invariant.Defs.{Inv, Keeps, RowOk-receipts, fits}
use intern.Store.Invariant.Rules.{
  Keeps-bind, Keeps-then, Keeps-guard, Keeps-guarded, Keeps-touch, Keeps-swap, Keeps-transaction,
  Keeps-read, Keeps-require, Keeps-pure, Keeps-cas_items,
}
use intern.Store.Invariant.Applying.{renewed-Safe, released-Safe, restored-Safe}

-- An UPDATE of receipts that keeps their keys and directions, and opens none that was closed.
pub record SafeReceipts (p : Db → ReceiptRow → Bool) (g : ReceiptRow → ReceiptRow) : Type 0 where
  pub same_id : (rc : ReceiptRow) → (g rc).id ≡ rc.id
  pub same_item : (rc : ReceiptRow) → (g rc).queue_item_id ≡ rc.queue_item_id
  pub same_direction : (rc : ReceiptRow) → (g rc).direction ≡ rc.direction
  pub closes :
      (db : Db) (rc : ReceiptRow)
      → p db rc ≡ true
      → is_open (g rc).stage ≡ true
      → is_open rc.stage ≡ true

module _ (p : Db → ReceiptRow → Bool) (g : ReceiptRow → ReceiptRow) (s : SafeReceipts p g) where
  open s use {same_id, same_item, same_direction, closes}

  updated-Inv :
      (db : Db) → Inv db → Inv (record db { receipts = update_where (p db) g db.receipts })
  updated-Inv db v = record {
    rows =
        All-map db.items
          (λ r h.
            RowOk-receipts _ _ _ r
              (λ k _ there.
                Table.exists-update (fits k r.id r.previous_status) (p db) g db.receipts
                  (λ rc _ hit. rw (same_id rc, same_item rc, same_direction rc) hit) there)
              h)
          v.rows;
    single_flight = v.single_flight;
    item_ids = v.item_ids;
    item_ids_used = v.item_ids_used;
    item_keys = v.item_keys;
    receipt_ids = λ k.
        rw
          (Table.count-update_same (λ rc. rc.id == k) (p db) g db.receipts
            (λ rc _. ap (λ (i : ℕ). i == k) (same_id rc)))
          (v.receipt_ids k);
    receipt_ids_used =
        Table.All-update (λ rc. rc.id < db.next_receipt_id) (p db) g db.receipts
          (λ rc _ h. rw (same_id rc) h) v.receipt_ids_used;
    open_receipts = λ k. omega (
      arith,
      v.open_receipts k,
      Table.count-update-le (open_of k) (p db) g db.receipts
          (λ rc hit h. ground (arith, same_item rc, closes db rc)),
    );
    session_ids = v.session_ids;
  }

  pub Keeps-update_receipts : (o : Option String) → Keeps o (update_receipts p g)
  unfolding update_receipts
  Keeps-update_receipts o = record { at = λ db v. (updated-Inv db v.0, v.1) }

  pub Keeps-cas_receipts : (o : Option String) → Keeps o (cas_receipts p g)
  unfolding cas_receipts
  Keeps-cas_receipts o = Keeps-bind o _ _ (Keeps-update_receipts o) (λ changed. Keeps-guard o _ _)

rolled_back-Safe :
    (c : Ctx) (id receipt_id : ℕ) (stage : OperationStage)
    → SafeReceipts
        (λ _ rc. receipt_at id receipt_id stage rc)
        (if is_stage stage rolled_back then cleaned_receipt c else rolled_back_receipt c)
rolled_back-Safe c id receipt_id stage = elim (Bool-cases (is_stage stage rolled_back)) [
  | inl e ↦ rw e (record {
    same_id = λ rc. refl;
    same_item = λ rc. refl;
    same_direction = λ rc. refl;
    closes = λ db rc hit h. h;
  })
  | inr e ↦ rw e (record {
    same_id = λ rc. refl;
    same_item = λ rc. refl;
    same_direction = λ rc. refl;
    closes = λ db rc hit h. cc;
  })
]

completed-Safe : (c : Ctx) (p : Db → ReceiptRow → Bool) → SafeReceipts p (completed_receipt c)
completed-Safe c p = record {
  same_id = λ rc. refl;
  same_item = λ rc. refl;
  same_direction = λ rc. refl;
  closes = λ db rc hit h. cc;
}

advanced-Safe :
    (c : Ctx) (stage : OperationStage) (new : OperationReceipt) (more : Db → Bool)
    → can_advance_to stage new.stage ≡ true
    → SafeReceipts
        (λ db rc. receipt_at new.queue_item_id new.id stage rc && more db)
        (updated_receipt c new)
advanced-Safe c stage new more advances = record {
  same_id = λ rc. refl;
  same_item = λ rc. refl;
  same_direction = λ rc. refl;
  closes = λ db rc hit h.
      let same : rc.stage ≡ stage = (is_stage_iff rc.stage stage).0 (ground arith) in
      ap is_open same ∙ can_advance_to-open stage new.stage advances h;
}

module _ (c : Ctx) (id receipt_id : ℕ) (stage : OperationStage) where
  pub resolve_reconciled_rollback-Keeps :
      Keeps none (resolve_reconciled_rollback c id receipt_id stage)
  unfolding resolve_reconciled_rollback
  resolve_reconciled_rollback-Keeps = Keeps-guarded none _ _ _ (λ _. Keeps-transaction none _ (
      Keeps-touch c _ (
        Keeps-then (some c.session) _ _
          (Keeps-cas_receipts _ _ (rolled_back-Safe c id receipt_id stage) (some c.session))
          (Keeps-swap _ _ id (some c.session) (
            restored-Safe (some c.session) c id (λ db r.
              has_num r.active_receipt_id receipt_id
              && exists_where
                  (λ rc.
                    receipt_at id receipt_id rolled_back rc
                    && was r.previous_status (starts_from rc.direction))
                  db.receipts))))))

  complete_receipt_unless_done-Keeps :
      (o : Option String) (s : OperationStage)
      → Keeps o (complete_receipt_unless_done c id receipt_id s)
  unfolding complete_receipt_unless_done
  complete_receipt_unless_done-Keeps o complete = Keeps-pure o tt
  complete_receipt_unless_done-Keeps o s = Keeps-cas_receipts _ _ (completed-Safe c _) o

  pub resolve_verified_operation-Keeps :
      Keeps none (resolve_verified_operation c id receipt_id stage)
  unfolding resolve_verified_operation
  resolve_verified_operation-Keeps = Keeps-guarded none _ _ _ (λ _. Keeps-transaction none _ (
      Keeps-touch c _ (
        Keeps-bind (some c.session) _ _ (Keeps-read _ _) (λ found.
          Keeps-bind (some c.session) _ _ (Keeps-require _ _ found) (λ rc.
            Keeps-then (some c.session) _ _ (complete_receipt_unless_done-Keeps _ stage) (
              Keeps-swap _ _ id (some c.session) (
                released-Safe (some c.session) c id
                  (λ _ r.
                    was r.previous_status (starts_from rc.direction)
                    && has_num r.active_receipt_id receipt_id)
                  (leads_to rc.direction) (idle_end rc.direction))))))))
    where
      idle_end : (d : OperationDirection) → is_active (leads_to d) ≡ false
      idle_end apply = refl
      idle_end undo = refl

pub update_receipt-Keeps :
    (c : Ctx) (stage : OperationStage) (new : OperationReceipt)
    → Keeps none (update_receipt c stage new)
unfolding update_receipt
update_receipt-Keeps c stage new = Keeps-guarded none _ _ _ (λ advances. Keeps-transaction none _ (
    Keeps-touch c _ (
      Keeps-then (some c.session) _ _
        (Keeps-cas_items (some c.session) _ _ (
          renewed-Safe (some c.session) c new.queue_item_id
            (λ _ r. has_num r.active_receipt_id new.id)))
        (Keeps-then (some c.session) _ _
          (Keeps-cas_receipts _ _
            (advanced-Safe c stage new
              (λ db.
                exists_where
                  (λ r. owned_applying c new.queue_item_id r && has_num r.active_receipt_id new.id)
                  db.items)
              advances)
            (some c.session))
          (Keeps-bind (some c.session) _ _ (Keeps-read _ _) (λ row.
            Keeps-bind (some c.session) _ _ (Keeps-require _ _ row) (λ rc. Keeps-pure _ _)))))))
