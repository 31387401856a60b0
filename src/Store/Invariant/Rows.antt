-- ===== src/Store/Invariant/Rows.antt =====
-- The operations that insert and delete rows, or work on several, keep the invariant.
use intern.Prelude.{
  ℕ, ◌+◌, ◌≤◌, ◌<◌, Text, String, ◌≡◌, refl, subst, Bool, true, false, ◌&&◌, not, Option, none,
  some, List, [], ◌∷◌, ◌++◌, arith, Bool-cases, inl, inr, ◌==◌, has_text, &&-eq-true, All, All-map,
  All-append, All-zip, eq_iff, text_eq_iff,
}
use intern.Prelude.Table.{count_where, exists_where, update_where, delete_where, find_where}
use intern.Prelude.Table
use intern.Domain.{applying, is_status}
use intern.Domain.Error.{ErrorCode, state_conflict}
use intern.Store.Db.{Db, QueueRow, ReceiptRow, Ctx}
use intern.Store.Tx.{◌>>=◌, pure, read, require, update_items}
use intern.Store.Queue.{
  active_row, has_key, new_row, windows_path_key, source_path_key, insert_item, enqueue,
  delete_items, clear_terminal, discard_queued, is_processing, failure_status, failure_recorded,
  record_processing_failure,
}
use intern.Store.Journal.{open_of}
use intern.Store.Invariant.Defs.{Inv, Keeps, RowOk, RowOk-receipts, fits}
use intern.Store.Invariant.Rules.{
  quiet_flight, Keeps-then, Keeps-transaction, Keeps-query_one, updated_rows-Inv,
}

-- A key that is not used yet is in no row.
pub unused :
    {A : Type 0} (key : A → ℕ) (n k : ℕ) (rows : List A)
    → All (λ r. key r < n) rows
    → n ≤ k
    → count_where (λ r. key r == k) rows ≡ 0
unused key n k rows h le =
    Table.count-eq-zero_of_All (λ r. key r == k) rows (All-map rows (λ r lt. ground arith) h)

module _ (c : Ctx) (path : Text) (hash : String) where
  keys :
      (db : Db)
      → Inv db
      → exists_where (has_key (windows_path_key c.to_lowercase path) hash) db.items ≡ false
      → (key : Text) (h : String)
      → count_where (has_key key h) db.items
          + count_where (has_key key h) (new_row c db.next_item_id path hash ∷ [])
        ≤ 1
  unfolding count_where
  keys db v fresh key h = elim (Bool-cases (has_key key h (new_row c db.next_item_id path hash))) [
    | inr other ↦ rw other (omega (arith, v.item_keys key h))
    | inl same ↦ rw same (
        omega (
          arith,
          subst (λ k. count_where (has_key k h) db.items ≡ 0)
              ((text_eq_iff (windows_path_key c.to_lowercase path) key).0 (&&-eq-true same).0)
              (subst
                (λ t. count_where (has_key (windows_path_key c.to_lowercase path) t) db.items ≡ 0)
                ((eq_iff hash h).0 (&&-eq-true same).1)
                (Table.count-eq-zero_of_not_exists
                  (has_key (windows_path_key c.to_lowercase path) hash) db.items fresh)),
        ))
  ]

  inserted-Inv :
      (db : Db)
      → Inv db
      → exists_where (has_key (windows_path_key c.to_lowercase path) hash) db.items ≡ false
      → Inv (record db {
        items = db.items ++ new_row c db.next_item_id path hash ∷ [];
        next_item_id = db.next_item_id + 1;
      })
  unfolding count_where
  inserted-Inv db v fresh = record {
    rows = All-append _ db.items _ v.rows (ground arith, tt);
    single_flight = rw (Table.count-append active_row db.items _) (omega (arith, v.single_flight));
    item_ids = λ k. rw (Table.count-append (λ r. r.id == k) db.items _) (
        ground (
          arith,
          v.item_ids k,
          unused (λ (r : QueueRow). r.id) db.next_item_id k db.items v.item_ids_used,
        ));
    item_ids_used =
        All-append _ db.items _ (All-map db.items (λ r h. omega arith) v.item_ids_used)
          (omega arith, tt);
    item_keys = λ key h. rw (Table.count-append (has_key key h) db.items _) (keys db v fresh key h);
    receipt_ids = v.receipt_ids;
    receipt_ids_used = v.receipt_ids_used;
    open_receipts = v.open_receipts;
    session_ids = v.session_ids;
  }

  skipped-Inv : (db : Db) → Inv db → Inv (record db { next_item_id = db.next_item_id + 1 })
  skipped-Inv db v = record {
    rows = v.rows;
    single_flight = v.single_flight;
    item_ids = v.item_ids;
    item_ids_used = All-map db.items (λ r h. omega arith) v.item_ids_used;
    item_keys = v.item_keys;
    receipt_ids = v.receipt_ids;
    receipt_ids_used = v.receipt_ids_used;
    open_receipts = v.open_receipts;
    session_ids = v.session_ids;
  }

  insert_item-Keeps : Keeps none (insert_item c path hash)
  unfolding insert_item
  insert_item-Keeps = record {
    at = λ db v.
        elim (Bool-cases
          (exists_where (has_key (windows_path_key c.to_lowercase path) hash) db.items)) [
            | inl known ↦ rw known (skipped-Inv db v.0, tt)
            | inr fresh ↦ rw fresh (inserted-Inv db v.0 fresh, tt)
          ];
  }

pub enqueue-Keeps : (c : Ctx) (path : Text) (hash : String) → Keeps none (enqueue c path hash)
unfolding enqueue
enqueue-Keeps c path hash = Keeps-transaction none _ (
    Keeps-then none _ _ (insert_item-Keeps c (c.to_string_lossy path) hash)
      (Keeps-query_one none (has_key (source_path_key c path) hash)))

-- Rows that are not being applied can go, with their receipts.
module _ (p : QueueRow → Bool)
    (settled : (r : QueueRow) → p r ≡ true → is_status r.status applying ≡ false) where
  -- the receipts that ON DELETE CASCADE takes
  orphaned : Db → ReceiptRow → Bool
  orphaned db rc = exists_where (λ r. r.id == rc.queue_item_id && p r) db.items

  spared :
      (db : Db)
      → Inv db
      → (r : QueueRow) → 0 < count_where (λ x. x.id == r.id && not (p x)) db.items
      → (k : ℕ) (rc : ReceiptRow) → fits k r.id r.previous_status rc ≡ true
      → orphaned db rc ≡ false
  unfolding orphaned
  spared db v r stays k rc hit =
      let mine : rc.queue_item_id ≡ r.id = ground arith in
      rw mine (Table.unique_exclusive (λ x. x.id == r.id) p db.items (v.item_ids r.id) stays)

  kept :
      (db : Db)
      → Inv db
      → All (λ r. p r ≡ false → 0 < count_where (λ x. x.id == r.id && not (p x)) db.items) db.items
  kept db v = Table.All-self (λ x r. x.id == r.id) p (λ r. ground arith) db.items

  deleted-Inv :
      (db : Db)
      → Inv db
      → Inv (record db {
        items = delete_where p db.items;
        receipts = delete_where (orphaned db) db.receipts;
      })
  deleted-Inv db v = record {
    rows =
        Table.All-delete_to _ _ p db.items
          (λ r stays h.
            RowOk-receipts _ _ _ r
              (λ k _ there.
                Table.exists-delete (fits k r.id r.previous_status) (orphaned db) db.receipts
                  (λ rc hit. spared db v r (h.1 stays) k rc hit) there)
              h.0)
          (All-zip _ _ db.items v.rows (kept db v));
    single_flight = omega (arith, Table.count-delete-le active_row p db.items, v.single_flight);
    item_ids = λ k. omega (arith, Table.count-delete-le (λ r. r.id == k) p db.items, v.item_ids k);
    item_ids_used = Table.All-delete _ p db.items v.item_ids_used;
    item_keys =
        λ key h. omega (arith, Table.count-delete-le (has_key key h) p db.items, v.item_keys key h);
    receipt_ids = λ k. omega (
      arith,
      Table.count-delete-le (λ rc. rc.id == k) (orphaned db) db.receipts,
      v.receipt_ids k,
    );
    receipt_ids_used = Table.All-delete _ (orphaned db) db.receipts v.receipt_ids_used;
    open_receipts = λ k.
        omega
          (arith, Table.count-delete-le (open_of k) (orphaned db) db.receipts, v.open_receipts k);
    session_ids = v.session_ids;
  }

  delete_items-Keeps : Keeps none (delete_items p)
  unfolding delete_items orphaned
  delete_items-Keeps = record { at = λ db v. (deleted-Inv db v.0, tt) }

pub clear_terminal-Keeps : (c : Ctx) → Keeps none (clear_terminal c)
unfolding clear_terminal
clear_terminal-Keeps c = delete_items-Keeps _ (λ r h. ground arith)

pub discard_queued-Keeps : (c : Ctx) → Keeps none (discard_queued c)
unfolding discard_queued
discard_queued-Keeps c = delete_items-Keeps _ (λ r h. ground arith)

abbrev failed_row : Ctx → ℕ → QueueRow → Bool
failed_row c id r = r.id == id && (is_processing r.status && has_text r.owner_session c.session)

-- The failure is the one that the selected row counts; it is the second, or the item is queued again.
failed-RowOk :
    (c : Ctx) (e : ErrorCode) (db : Db) (row r : QueueRow)
    → is_processing row.status ≡ true
    → is_processing r.status ≡ true
    → RowOk db.sessions db.receipts row
    → RowOk db.sessions db.receipts r
    → RowOk db.sessions db.receipts (failure_recorded c (row.processing_failures + 1) e r)
failed-RowOk c e db row r working working' h h' = ground (arith, h.failures_left)

failure-Inv :
    (c : Ctx) (id : ℕ) (e : ErrorCode) (db : Db) (row : QueueRow)
    → Inv db
    → find_where
        (λ r. r.id == id && (is_processing r.status && has_text r.owner_session c.session))
        db.items
      ≡ some row
    → Inv (record db {
      items =
          update_where
            (λ x. x.id == id && has_text x.owner_session c.session)
            (failure_recorded c (row.processing_failures + 1) e)
            db.items;
    })
failure-Inv c id e db row v found =
    updated_rows-Inv _ (failure_recorded c (row.processing_failures + 1) e) db (λ r. refl)
      (λ r. refl) (λ r. refl)
      (Table.All-update_to _ _ _ _ db.items
        (λ r hit h.
          failed-RowOk c e db row r (ground (arith, ours.1)) (ground (arith, (h.1 (ground arith))))
            ours.0 h.0)
        (λ r _ h. h.0) (All-zip _ _ db.items v.rows working))
      (quiet_flight _ _ db v (λ r hit h. ground arith)) v
  where
    ours : RowOk db.sessions db.receipts row × (failed_row c id row ≡ true)
    ours = Table.All-find _ (failed_row c id) db.items row found v.rows

    working :
        All
          (λ r.
            (r.id == id) ≡ true
            → (is_processing r.status && has_text r.owner_session c.session) ≡ true)
          db.items
    working =
        Table.unique-All (λ r. r.id == id)
          (λ r. is_processing r.status && has_text r.owner_session c.session) db.items
          (v.item_ids id)
          (Table.exists_of_find (failed_row c id) (failed_row c id) db.items row found ours.1)

failing-Keeps :
    (c : Ctx) (id : ℕ) (e : ErrorCode) (db : Db) (row : Option QueueRow)
    → Inv db
    → find_where
        (λ r. r.id == id && (is_processing r.status && has_text r.owner_session c.session))
        db.items
      ≡ row
    → Inv
        ((do
          r ← require state_conflict row
          changed ←
              update_items
                (λ _ x. x.id == id && has_text x.owner_session c.session)
                (failure_recorded c (r.processing_failures + 1) e)
          pure (failure_status (r.processing_failures + 1)))
          db).0
unfolding require ◌>>=◌ update_items pure
failing-Keeps c id e db none v found = v
failing-Keeps c id e db (some row) v found = failure-Inv c id e db row v found

pub record_processing_failure-Keeps :
    (c : Ctx) (id : ℕ) (e : ErrorCode) → Keeps none (record_processing_failure c id e)
unfolding record_processing_failure read ◌>>=◌
record_processing_failure-Keeps c id e =
    Keeps-transaction none _ (record { at = λ db v. (failing-Keeps c id e db _ v.0 refl, tt) })
