-- ===== src/Store/Behaviour/Lookup.antt =====
-- The two questions of the intake: whether a content was filed before, and what became of a path.
use mathlib.Core.List.{Mem, mem-cons_self, mem-cons_of_mem}
use intern.Prelude.{
  ℕ, Bool, ◌≤◌, ◌<◌, ap, ◌∙◌, sym, fun_ext, not, ◌&&◌, ◌||◌, ltb, ◌==◌, str_eq, text_eq, All-map,
  if◌then◌else◌, Text, String, ◌≡◌, refl, true, false, ◌⊎◌, inl, inr, Option, none, some, List, [],
  ◌∷◌, arith, Option-cases, All,
}
use intern.Prelude.Table.{exists_where, select_first, IsOrder}
use intern.Prelude.Table
use intern.Domain.{completed, is_status}
use intern.Domain.Error.{ok}
use intern.Receipt.{apply, complete, is_stage, is_direction}
use intern.Store.Db.{Db, QueueRow, ReceiptRow, Ctx}
use intern.Store.Tx.{◌>>=◌, pure, read, require, item_of}
use intern.Store.Queue.{windows_path_key}
use intern.Store.Journal.{newest_first}
use intern.Store.Queries.{
  latest_first, filed_elsewhere, finished_of, filed_name, find_completed_duplicate,
  newest_item_first, is_key_of, find_newest_by_source_path,
}
use intern.Store.Invariant.Defs.{Inv}
use intern.Store.Behaviour.Spec.{is_apply-is_direction}
use intern.Store.Behaviour.Enqueue.{readable_row}

pub All-Mem : {A : Type 0} (rows : List A) → All (λ x. Mem x rows) rows
All-Mem [] = tt
All-Mem (r ∷ rows) = (mem-cons_self, All-map rows (λ x h. mem-cons_of_mem r h) (All-Mem rows))

later_or_same :
    (s r : QueueRow)
    → (ltb r.updated_at s.updated_at || (s.updated_at == r.updated_at && ltb r.id s.id)) ≡ false
    → (s.updated_at < r.updated_at) ⊎ ((s.updated_at ≡ r.updated_at) × (s.id ≤ r.id))
later_or_same s r h = ground arith

latest_first-IsOrder : IsOrder latest_first
latest_first-IsOrder = record {
  irreflexive = λ a. ground arith;
  asymmetric = λ a b h. ground arith;
  negatively_transitive = λ a b k h h'. ground arith;
}

newest_item_first-IsOrder : IsOrder newest_item_first
newest_item_first-IsOrder = record {
  irreflexive = λ a. ground arith;
  asymmetric = λ a b h. ground arith;
  negatively_transitive = λ a b k h h'. ground arith;
}

-- a completed item with the content, under another path key
abbrev pub is_filed_copy : String → Text → QueueRow → Bool
is_filed_copy hash key r =
    is_status r.status completed
    && (str_eq r.source_hash hash && not (text_eq r.source_path_key key))

-- a completed operation on the item
abbrev pub is_finished_on : ℕ → ReceiptRow → Bool
is_finished_on id rc = rc.queue_item_id == id && is_stage rc.stage complete

-- The name that an item was filed under: its completed operation with the greatest id is an apply, and
-- this is the last component of its destination. There is none after an undo, and none with no
-- completed operation.
abbrev pub IsFiledName : (Text → Option Text) → Db → ℕ → Option Text → Type 0
IsFiledName file_name db id name =
    ((exists_where (is_finished_on id) db.receipts ≡ false) × (name ≡ none))
    ⊎ ((rc : ReceiptRow) × Mem rc db.receipts
        × (is_finished_on id rc ≡ true)
        × All (λ x. is_finished_on id x ≡ true → x.id ≤ rc.id) db.receipts
        × (name ≡ (if is_direction rc.direction apply then file_name rc.destination else none)))

pub newest_first-IsOrder : IsOrder newest_first
newest_first-IsOrder = record {
  irreflexive = λ a. ground arith;
  asymmetric = λ a b h. ground arith;
  negatively_transitive = λ a b k h h'. ground arith;
}

filed_name-IsFiledName :
    (file_name : Text → Option Text) (db : Db) (id : ℕ)
    → IsFiledName file_name db id
        (filed_name file_name (select_first newest_first (finished_of id) db.receipts))
filed_name-IsFiledName file_name db id =
    elim (Option-cases (select_first newest_first (finished_of id) db.receipts)) [
      | inl nothing ↦ inl (Table.select_first-none newest_first _ db.receipts nothing, rw nothing)
      | inr (rc, found) ↦ inr (
        rc,
        Table.All-select_first newest_first (finished_of id) (λ x. Mem x db.receipts) db.receipts rc
            found (All-Mem db.receipts),
        Table.select_first-matches newest_first (finished_of id) db.receipts rc found,
        All-map db.receipts (λ x least h. ground (arith, least h))
            (Table.select_first-least newest_first _ newest_first-IsOrder db.receipts rc found),
        rw found (
            ap (λ (b : Bool). if b then file_name rc.destination else none)
              (is_apply-is_direction rc.direction)),
      )
    ]

-- `find_completed_duplicate` answers `None` exactly if no completed item has the content under
-- another path key. Otherwise it names such an item, of those the one that was updated last, and of
-- two with the same time the one with the greater id, with its path and the name it was filed under.
-- The database does not change.
pub find_completed_duplicate_lem :
    (file_name : Text → Option Text) (hash : String) (key : Text) (db : Db)
    → ((find_completed_duplicate file_name hash key db ≡ (db, ok none))
        × (exists_where (is_filed_copy hash key) db.items ≡ false))
      ⊎ ((r : QueueRow) × (name : Option Text) × Mem r db.items
          × (is_filed_copy hash key r ≡ true)
          × All
              (λ s.
                is_filed_copy hash key s ≡ true
                → (s.updated_at < r.updated_at) ⊎ ((s.updated_at ≡ r.updated_at) × (s.id ≤ r.id)))
              db.items
          × IsFiledName file_name db r.id name
          × (find_completed_duplicate file_name hash key db ≡ (
            db,
            ok (some record { queue_item_id = r.id; source_path = r.source_path; filed_as = name }),
          )))
unfolding find_completed_duplicate read
find_completed_duplicate_lem file_name hash key db =
    elim (Option-cases (select_first latest_first (filed_elsewhere hash key) db.items)) [
      | inl nothing ↦ inl (rw nothing, Table.select_first-none latest_first _ db.items nothing)
      | inr (r, found) ↦ inr (
        r,
        filed_name file_name (select_first newest_first (finished_of r.id) db.receipts),
        Table.All-select_first latest_first (filed_elsewhere hash key) (λ x. Mem x db.items)
            db.items r found (All-Mem db.items),
        Table.select_first-matches latest_first (filed_elsewhere hash key) db.items r found,
        All-map db.items (λ s least h. later_or_same s r (least h))
            (Table.select_first-least latest_first _ latest_first-IsOrder db.items r found),
        filed_name-IsFiledName file_name db r.id,
        rw found,
      )
    ]

-- the path's key is the item's, for one of the paths
abbrev pub has_one_key : Ctx → List Text → QueueRow → Bool
has_one_key c paths r =
    exists_where
      (λ path. text_eq r.source_path_key (windows_path_key c.to_lowercase (c.to_string_lossy path)))
      paths

is_key_of-has_one_key :
    (c : Ctx) (paths : List Text) (r : QueueRow) → is_key_of c paths r ≡ has_one_key c paths r
unfolding is_key_of exists_where
is_key_of-has_one_key c [] r = refl
is_key_of-has_one_key c (path ∷ paths) r =
    ap
      (λ (b : Bool).
        text_eq r.source_path_key (windows_path_key c.to_lowercase (c.to_string_lossy path)) || b)
      (is_key_of-has_one_key c paths r)

unkeyed : (c : Ctx) (rows : List QueueRow) → exists_where (is_key_of c []) rows ≡ false
unfolding exists_where is_key_of
unkeyed c [] = refl
unkeyed c (r ∷ rows) = unkeyed c rows

-- Where the invariant holds, `find_newest_by_source_path` answers `None` exactly if no item has the
-- key of one of the paths, and otherwise with an item that has one, of those the one with the greatest
-- id. The database does not change.
pub find_newest_by_source_path_lem :
    (c : Ctx) (paths : List Text) (db : Db)
    → Inv db
    → ((find_newest_by_source_path c paths db ≡ (db, ok none))
        × (exists_where (has_one_key c paths) db.items ≡ false))
      ⊎ ((r : QueueRow) × Mem r db.items
          × (has_one_key c paths r ≡ true)
          × All (λ s. has_one_key c paths s ≡ true → s.id ≤ r.id) db.items
          × (find_newest_by_source_path c paths db ≡ (db, ok (some (item_of r)))))
unfolding find_newest_by_source_path pure
find_newest_by_source_path_lem c [] db v =
    inl (refl, rw (← fun_ext (is_key_of-has_one_key c [])) (unkeyed c db.items))
find_newest_by_source_path_lem c (path ∷ paths) db v =
    let wanted = is_key_of c (path ∷ paths) in
    let same = is_key_of-has_one_key c (path ∷ paths) in
    elim (Option-cases (select_first newest_item_first wanted db.items)) [
      | inl nothing ↦ inl (
        unfold ◌>>=◌ read pure in rw nothing,
        rw (← fun_ext same) (Table.select_first-none newest_item_first wanted db.items nothing),
      )
      | inr (r, found) ↦
          let h = Table.All-select_first newest_item_first wanted _ db.items r found v.rows in
          inr (
            r,
            Table.All-select_first newest_item_first wanted (λ x. Mem x db.items) db.items r found
                (All-Mem db.items),
            sym (same r) ∙ Table.select_first-matches newest_item_first wanted db.items r found,
            All-map db.items (λ s least k. ground (arith, least (same s ∙ k)))
                (Table.select_first-least newest_item_first wanted newest_item_first-IsOrder
                  db.items r found),
            unfold ◌>>=◌ read require pure in rw (found, readable_row r h.failures_bounded),
          )
    ]
