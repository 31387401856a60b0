-- ===== src/Store/Invariant/Binding.antt =====
-- `create_receipt` keeps the invariant: the new receipt is its item's only open one, and goes the
-- way that starts from the status the item came from.
use intern.Prelude.{
  ℕ, ◌+◌, ◌≡◌, refl, ap, ◌∙◌, Bool, true, false, ◌&&◌, not, Option, none, some, [], ◌∷◌, ◌++◌,
  arith, Bool-cases, Option-cases, &&-eq-true, inl, inr, ◌==◌, ==_iff, is_some, All, All-map,
  All-append, All-zip,
}
use intern.Prelude.Table.{count_where, exists_where, update_where, find_where}
use intern.Prelude.Table
use intern.Domain.{applying}
use intern.Domain.Error.{state_conflict}
use intern.Receipt.{planned, is_stage, OperationReceipt}
use intern.Store.Db.{Db, QueueRow, ReceiptRow, Ctx}
use intern.Store.Tx.{◌>>=◌, ◌>>◌, pure, read, require, guard, cas_items, update_items}
use intern.Store.Applying.{was, owned_applying, starts_from}
use intern.Store.Journal.{
  path_text, open_of, receiptless, insert_receipt, bound, previous_of, create_receipt,
}
use intern.Store.Invariant.Defs.{Inv, InvWith, Keeps, RowOk, RowOk-receipts, fits}
use intern.Store.Invariant.Rows.{unused}
use intern.Store.Invariant.Rules.{Keeps-touch, Keeps-transaction, updated_rows-Inv, quiet_flight}

module _ (c : Ctx) (item : ℕ) (receipt : OperationReceipt) where
  abbrev new_receipt : ℕ → ReceiptRow
  new_receipt id = record {
    receipt = record receipt {
      id = id;
      queue_item_id = item;
      source = c.to_string_lossy receipt.source;
      destination = c.to_string_lossy receipt.destination;
      temporary_path = path_text c receipt.temporary_path;
    };
    created_at = c.now;
    updated_at = c.now;
  }

  abbrev journalled : Db → Db
  journalled db = record db {
    receipts = db.receipts ++ new_receipt db.next_receipt_id ∷ [];
    next_receipt_id = db.next_receipt_id + 1;
  }

  abbrev unbound : QueueRow → Bool
  unbound r = owned_applying c item r && not (is_some r.active_receipt_id)

  abbrev bindable : Db → QueueRow → Bool
  bindable db r =
      owned_applying c item r
      && (not (is_some r.active_receipt_id) && not (exists_where (open_of item) db.receipts))

  journalled-Inv :
      (db : Db) → Inv db → exists_where (open_of item) db.receipts ≡ false → Inv (journalled db)
  unfolding count_where
  journalled-Inv db v none_open = record {
    rows =
        All-map db.items
          (λ r h.
            RowOk-receipts _ _ _ r
              (λ k _ there. Table.exists-append (fits k r.id r.previous_status) db.receipts _ there)
              h)
          v.rows;
    single_flight = v.single_flight;
    item_ids = v.item_ids;
    item_ids_used = v.item_ids_used;
    item_keys = v.item_keys;
    receipt_ids = λ k. rw (Table.count-append (λ rc. rc.id == k) db.receipts _) (
        ground (
          arith,
          v.receipt_ids k,
          unused (λ (rc : ReceiptRow). rc.id) db.next_receipt_id k db.receipts v.receipt_ids_used,
        ));
    receipt_ids_used =
        All-append _ db.receipts _ (All-map db.receipts (λ rc h. omega arith) v.receipt_ids_used)
          (omega arith, tt);
    open_receipts = λ k.
        rw (Table.count-append (open_of k) db.receipts _) (elim (Bool-cases (item == k)) [
          | inr other ↦ ground (arith, v.open_receipts k)
          | inl same ↦ rw (← (==_iff item k).0 same) (
              ground
                (arith, Table.count-eq-zero_of_not_exists (open_of item) db.receipts none_open))
        ]);
    session_ids = v.session_ids;
  }

  -- The new receipt fits the row that it is bound to.
  bound-RowOk :
      (db : Db) (r : QueueRow)
      → r.id ≡ item
      → r.status ≡ applying
      → was r.previous_status (starts_from receipt.direction) ≡ true
      → RowOk db.sessions (journalled db).receipts r
      → RowOk db.sessions (journalled db).receipts (bound c db.next_receipt_id r)
  bound-RowOk db r mine applies starts h = record {
    owner_active = h.owner_active;
    owner_open = h.owner_open;
    lease_active = ground arith;
    previous_applying = h.previous_applying;
    previous_applicable = h.previous_applicable;
    receipt_applying = λ _. applies;
    receipt_fits = λ k e.
        Table.exists-append_last (fits k r.id r.previous_status) db.receipts
          (new_receipt db.next_receipt_id) (ground arith);
    failures_bounded = h.failures_bounded;
    failures_left = h.failures_left;
  }

  bound-Inv :
      (db : Db) (row : QueueRow)
      → Inv db
      → receiptless c item db ≡ some row
      → was row.previous_status (starts_from receipt.direction) ≡ true
      → Inv (record (journalled db) {
        items = update_where unbound (bound c db.next_receipt_id) db.items;
      })
  unfolding receiptless
  bound-Inv db row v found starts =
      updated_rows-Inv unbound (bound c db.next_receipt_id) (journalled db) (λ r. refl) (λ r. refl)
        (λ r. refl)
        (Table.All-update_to _ _ unbound (bound c db.next_receipt_id) db.items
          (λ r hit h. bound-RowOk db r (ground arith) (ground arith) (h.1 (ground arith)) h.0)
          (λ r _ h. h.0) (All-zip _ _ db.items after.rows starting))
        (quiet_flight unbound (bound c db.next_receipt_id) (journalled db) after
          (λ r hit h. ground arith))
        after
    where
      ours : RowOk db.sessions db.receipts row × (bindable db row ≡ true)
      ours = Table.All-find _ (bindable db) db.items row found v.rows

      after : Inv (journalled db)
      after = journalled-Inv db v (ground (arith, ours.1))

      starting :
          All
            (λ r.
              (r.id == item) ≡ true → was r.previous_status (starts_from receipt.direction) ≡ true)
            db.items
      starting =
          Table.unique-All (λ r. r.id == item)
            (λ r. was r.previous_status (starts_from receipt.direction)) db.items (v.item_ids item)
            (Table.exists_of_find _ (bindable db) db.items row found (ground (arith, ours.1)))

  binding-Inv :
      (db : Db)
      → InvWith (some c.session) (record (journalled db) {
        items = update_where unbound (bound c db.next_receipt_id) db.items;
      })
      → InvWith
          (some c.session)
          ((cas_items (λ _ r. unbound r) (bound c db.next_receipt_id)
              >> pure (record receipt { id = db.next_receipt_id; queue_item_id = item }))
            (journalled db)).0
  unfolding cas_items update_items guard pure ◌>>=◌ ◌>>◌
  binding-Inv db v = elim (Bool-cases (count_where unbound db.items == 1)) [
    | inl one ↦ rw one v
    | inr other ↦ rw other v
  ]

  create-Inv :
      (db : Db) (row : Option QueueRow)
      → InvWith (some c.session) db
      → receiptless c item db ≡ row
      → InvWith
          (some c.session)
          ((do
            previous ← previous_of row
            guard
                (was previous (starts_from receipt.direction) && is_stage receipt.stage planned)
                state_conflict
            id ← insert_receipt c (record receipt { queue_item_id = item })
            cas_items (λ _ r. unbound r) (bound c id)
            pure (record receipt { id = id; queue_item_id = item }))
            db).0
  unfolding insert_receipt guard require pure ◌>>=◌ ◌>>◌
  create-Inv db none v found = v
  create-Inv db (some row) v found = elim (Option-cases row.previous_status) [
    | inl missing ↦ rw (missing, require) v
    | inr (s, e) ↦
        rw (e, require)
          (elim (Bool-cases
            (was (some s) (starts_from receipt.direction) && is_stage receipt.stage planned)) [
              | inr wrong ↦ rw (wrong, guard) v
              | inl right ↦
                  rw (right, guard)
                    (binding-Inv db (
                      bound-Inv db row v.0 found (
                          ap (λ o. was o (starts_from receipt.direction)) e ∙ (&&-eq-true right).0),
                      v.1,
                    ))
            ])
  ]

  pub create_receipt-Keeps : Keeps none (create_receipt c item receipt)
  unfolding create_receipt read ◌>>=◌
  create_receipt-Keeps =
      Keeps-transaction none _ (Keeps-touch c _ (record { at = λ db v. create-Inv db _ v refl }))
