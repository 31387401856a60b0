-- ===== src/Store/Behaviour/Enqueue.antt =====
-- `enqueue`: a path and its content stand in one row, however often they are added.
use intern.Prelude.{
  ℕ, ◌+◌, ◌^◌, ◌≤◌, Text, String, ◌≡◌, refl, ◌∙◌, true, Option, none, some, [], ◌∷◌, ◌++◌, arith,
  Option-cases, inl, inr, lt→ltb, text_eq_iff, eq_iff, Bool, ◌&&◌, str_eq, text_eq,
}
use intern.Prelude.Table.{exists_where, find_where}
use intern.Prelude.Table
use intern.Domain.{queued}
use intern.Domain.Error.{InternResult, ok}
use intern.Store.Db.{Db, QueueRow, QueueItem, Ctx}
use intern.Store.Tx.{◌>>=◌, ◌>>◌, read, require, transaction, item_of, row_to_item, query_one}
use intern.Store.Queue.{windows_path_key, has_key, new_row, insert_item, enqueue}
use intern.Store.Invariant.Defs.{Inv}
use intern.Store.Invariant.Rows.{enqueue-Keeps}

-- the key of a path: of its text, where what is not Unicode is replaced
abbrev pub key_of : Ctx → Text → Text
key_of c path = windows_path_key c.to_lowercase (c.to_string_lossy path)

-- the row of a path that was never added before
abbrev pub waiting_row : Ctx → ℕ → Text → String → QueueRow
waiting_row c id path hash = record {
  id = id;
  source_path = c.to_string_lossy path;
  source_path_key = key_of c path;
  source_hash = hash;
  status = queued;
  processing_failures = 0;
  error_code = none;
  owner_session = none;
  lease_expires_at = none;
  previous_status = none;
  active_receipt_id = none;
  reconciliation_receipt_id = none;
  applying_epoch = 0;
  created_at = c.now;
  updated_at = c.now;
}

abbrev pub has_path_and_content : Text → String → QueueRow → Bool
has_path_and_content key hash r = text_eq r.source_path_key key && str_eq r.source_hash hash

abbrev pub enqueue_spec : Ctx → Text → String → Db → Option QueueRow → Db × InternResult QueueItem
enqueue_spec c path hash db (some r) =
    (record db { next_item_id = db.next_item_id + 1 }, ok (item_of r))
enqueue_spec c path hash db none = (
  record db {
    items = db.items ++ waiting_row c db.next_item_id path hash ∷ [];
    next_item_id = db.next_item_id + 1;
  },
  ok (item_of (waiting_row c db.next_item_id path hash)),
)

pub readable_row : (r : QueueRow) → r.processing_failures ≤ 2 → row_to_item r ≡ some (item_of r)
unfolding row_to_item
readable_row r h = rw (lt→ltb r.processing_failures (2 ^ 32) (omega (arith, h)))

has_own_key :
    (c : Ctx) (id : ℕ) (text : Text) (hash : String)
    → has_key (windows_path_key c.to_lowercase text) hash (new_row c id text hash) ≡ true
has_own_key c id text hash =
    let key = windows_path_key c.to_lowercase text in
    ground (arith, (text_eq_iff key key).1 refl, (eq_iff hash hash).1 refl)

-- Where the invariant holds, `enqueue` answers with the item that has the path's key and the content,
-- if there is one, and changes no row then, but skips a key of the table; else it appends a row that is
-- `queued`, with the next key, no failure, no owner and no error, and answers with it.
pub enqueue_lem :
    (c : Ctx) (path : Text) (hash : String) (db : Db)
    → Inv db
    → enqueue c path hash db
      ≡ enqueue_spec c path hash db
          (find_where (has_path_and_content (key_of c path) hash) db.items)
unfolding enqueue insert_item transaction query_one read require ◌>>=◌ ◌>>◌
enqueue_lem c path hash db v =
    let q = has_key (key_of c path) hash in
    elim (Option-cases (find_where q db.items)) [
      | inr (r, found) ↦
          let (h, _) = Table.All-find _ q db.items r found v.rows in
          rw (Table.exists-eq-is_some q db.items (some r) found, found)
            (rw (readable_row r h.failures_bounded))
      | inl nothing ↦
          rw (Table.exists-eq-is_some q db.items none nothing, nothing)
            (rw
              (Table.find-append_last q db.items
                (new_row c db.next_item_id (c.to_string_lossy path) hash) nothing
                (has_own_key c db.next_item_id (c.to_string_lossy path) hash))
              (rw (
                readable_row (new_row c db.next_item_id (c.to_string_lossy path) hash)
                  (omega arith))))
    ]

-- Where the invariant holds, adding a path again that has the same key as one that was just added,
-- with the same content and from any session, changes no row and answers with the same item; it only
-- skips a key of the table.
pub enqueue_again :
    (c c' : Ctx) (path path' : Text) (hash : String) (db : Db)
    → Inv db
    → key_of c' path' ≡ key_of c path
    → enqueue c' path' hash (enqueue c path hash db).0 ≡ (
      record ((enqueue c path hash db).0) {
        next_item_id = (enqueue c path hash db).0.next_item_id + 1;
      },
      (enqueue c path hash db).1,
    )
enqueue_again c c' path path' hash db v same =
    enqueue_lem c' path' hash (enqueue c path hash db).0
      ((enqueue-Keeps c path hash).at db (v, tt)).0
    ∙ rw same (
        rw (enqueue_lem c path hash db v)
          (settled (find_where (has_key (key_of c path) hash) db.items) refl))
  where
    settled :
        (o : Option QueueRow)
        → find_where (has_key (key_of c path) hash) db.items ≡ o
        → enqueue_spec c' path' hash
            (enqueue_spec c path hash db o).0
            (find_where (has_key (key_of c path) hash) (enqueue_spec c path hash db o).0.items)
          ≡ (
            record ((enqueue_spec c path hash db o).0) {
              next_item_id = (enqueue_spec c path hash db o).0.next_item_id + 1;
            },
            (enqueue_spec c path hash db o).1,
          )
    settled (some r) found = rw found
    settled none nothing = rw (
        Table.find-append_last (has_key (key_of c path) hash) db.items
          (new_row c db.next_item_id (c.to_string_lossy path) hash) nothing
          (has_own_key c db.next_item_id (c.to_string_lossy path) hash))
