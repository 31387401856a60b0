-- ===== src/Store/Behaviour/Queries.antt =====
-- What the queries of Store/Queries answer.
use intern.Prelude.{
  ℕ, Bool, ltb, ◌||◌, ◌≤◌, ◌≡◌, refl, ◌∙◌, Bool, ◌&&◌, not, List, [], ◌∷◌, map, arith, ◌==◌, All,
  All-map, length,
}
use intern.Prelude.Table.{
  count_where, exists_where, select_where, order_by, limit_to, IsOrder, IsOrdered,
}
use intern.Prelude.Table
use intern.Domain.Error.{ok}
use intern.Receipt.{is_open}
use intern.Store.Db.{Db, QueueRow, ReceiptRow}
use intern.Store.Tx.{◌>>=◌, pure, read, require, item_of}
use intern.Store.Queries.{
  HistoryEntry, read_rows, by_id_order, list, min, latest_operation_first, in_history,
  list_operation_history,
}
use intern.Store.Invariant.Defs.{Inv}
use intern.Store.Behaviour.Enqueue.{readable_row}

latest_operation_first-IsOrder : IsOrder latest_operation_first
latest_operation_first-IsOrder = record {
  irreflexive = λ a. ground arith;
  asymmetric = λ a b h. ground arith;
  negatively_transitive = λ a b k h h'. ground arith;
}

by_id_order-IsOrder : IsOrder by_id_order
by_id_order-IsOrder = record {
  irreflexive = λ a. ground arith;
  asymmetric = λ a b h. ground arith;
  negatively_transitive = λ a b k h h'. ground arith;
}

read_rows_lem :
    (rows : List QueueRow) (db : Db)
    → All (λ r. r.processing_failures ≤ 2) rows
    → read_rows rows db ≡ (db, ok (map item_of rows))
unfolding read_rows require pure ◌>>=◌
read_rows_lem [] db h = refl
read_rows_lem (r ∷ rows) db h = rw (readable_row r h.0, read_rows_lem rows db h.1)

-- Where the invariant holds, `list` answers with the items of the table's rows, each row as often as
-- it is there, in the order of their ids, the smallest first, and changes nothing.
pub list_lem :
    (db : Db)
    → Inv db
    → (rows : List QueueRow) × (list db ≡ (db, ok (map item_of rows)))
      × IsOrdered (λ a b. ltb a.id b.id) rows
      × ((q : QueueRow → Bool) → count_where q rows ≡ count_where q db.items)
unfolding list read ◌>>=◌
list_lem db v = (
  order_by by_id_order db.items,
  read_rows_lem (order_by by_id_order db.items) db (
      Table.All-order_by by_id_order (λ r. r.processing_failures ≤ 2) db.items
        (All-map db.items (λ r h. h.failures_bounded) v.rows)),
  Table.order_by-IsOrdered by_id_order by_id_order-IsOrder db.items,
  λ q. Table.count-order_by by_id_order q db.items,
)

-- an operation as the history shows it: from its source to its destination
abbrev pub filed_entry : ReceiptRow → HistoryEntry
filed_entry rc = record {
  receipt_id = rc.id;
  queue_item_id = rc.queue_item_id;
  at = rc.updated_at;
  direction = rc.direction;
  kind = rc.kind;
  stage = rc.stage;
  original_path = rc.source;
  new_path = rc.destination;
}

-- The finished operations on items that are still there, those updated latest first, and of two
-- with the same time the one with the greater id first, each as often as the table has it:
-- `list_operation_history` answers with the first of them, at most `limit` and at most 500, with
-- the source as the original path and the destination as the new one. The database does not change.
pub list_operation_history_lem :
    (limit : ℕ) (db : Db)
    → (rows : List ReceiptRow) × (list_operation_history limit db
        ≡ (db, ok (map filed_entry (limit_to (min limit 500) rows))))
      × (length (limit_to (min limit 500) rows) ≤ limit)
      × (length (limit_to (min limit 500) rows) ≤ 500)
      × IsOrdered
          (λ a b. ltb b.updated_at a.updated_at || (a.updated_at == b.updated_at && ltb b.id a.id))
          rows
      × ((q : ReceiptRow → Bool)
          → count_where q rows
            ≡ count_where
                (λ rc.
                  (not (is_open rc.stage) && exists_where (λ r. r.id == rc.queue_item_id) db.items)
                  && q rc)
                db.receipts)
unfolding list_operation_history read
list_operation_history_lem limit db =
    let finished = select_where (in_history db) db.receipts in
    let rows = order_by latest_operation_first finished in
    let few = Table.length-limit_to (min limit 500) rows in
    (
      rows,
      refl,
      ground (arith, few),
      ground (arith, few),
      Table.order_by-IsOrdered latest_operation_first latest_operation_first-IsOrder finished,
      λ q.
          Table.count-order_by latest_operation_first q finished
          ∙ Table.count-select_where (in_history db) q db.receipts,
    )
