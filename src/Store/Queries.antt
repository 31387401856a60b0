-- ===== src/Store/Queries.antt =====
-- store.rs: the queries of `QueueStore` that change nothing.
use intern.Prelude.{
  ℕ, Text, String, Bool, false, not, ◌&&◌, ◌||◌, Option, none, some, List, [], ◌∷◌, map, str_eq,
  text_eq, ltb, leb, ◌==◌, if◌then◌else◌,
}
use intern.Prelude.Table.{exists_where, select_first, select_where, order_by, limit_to}
use intern.Domain.{completed, is_status}
use intern.Domain.Error.{database_unavailable}
use intern.Receipt.{
  OperationDirection, OperationKind, OperationStage, complete, is_stage, is_open, is_apply,
}
use intern.Store.Db.{Db, QueueRow, QueueItem, ReceiptRow, Ctx}
use intern.Store.Tx.{Tx, ◌>>=◌, pure, read, require, row_to_item}
use intern.Store.Queue.{source_path_key}
use intern.Store.Journal.{newest_first}

-- `DuplicateInfo`
pub record DuplicateInfo : Type 0 where
  pub queue_item_id : ℕ
  pub source_path : Text
  pub filed_as : Option Text

-- ORDER BY updated_at DESC, id DESC
abbrev pub latest_first : QueueRow → QueueRow → Bool
latest_first a b = ltb b.updated_at a.updated_at || (a.updated_at == b.updated_at && ltb b.id a.id)

abbrev pub filed_elsewhere : String → Text → QueueRow → Bool
filed_elsewhere hash key r =
    is_status r.status completed
    && (str_eq r.source_hash hash && not (text_eq r.source_path_key key))

-- the newest finished operation on an item
abbrev pub finished_of : ℕ → ReceiptRow → Bool
finished_of id rc = rc.queue_item_id == id && is_stage rc.stage complete

-- `Path::file_name` of the destination, if the newest finished operation is an apply
abbrev pub filed_name : (Text → Option Text) → Option ReceiptRow → Option Text
filed_name file_name none = none
filed_name file_name (some rc) = if is_apply rc.direction then file_name rc.destination else none

abbrev pub duplicate_info : (Text → Option Text) → Db → Option QueueRow → Option DuplicateInfo
duplicate_info file_name db none = none
duplicate_info file_name db (some r) = some record {
  queue_item_id = r.id;
  source_path = r.source_path;
  filed_as = filed_name file_name (select_first newest_first (finished_of r.id) db.receipts);
}

unfoldable pub find_completed_duplicate :
    (Text → Option Text) → String → Text → Tx (Option DuplicateInfo)
find_completed_duplicate file_name source_hash excluding_path_key = read (λ db.
    duplicate_info file_name db
      (select_first latest_first (filed_elsewhere source_hash excluding_path_key) db.items))

-- ORDER BY id DESC
abbrev pub newest_item_first : QueueRow → QueueRow → Bool
newest_item_first a b = ltb b.id a.id

-- `source_path_key IN (...)`
unfoldable pub is_key_of : Ctx → List Text → QueueRow → Bool
is_key_of c [] r = false
is_key_of c (path ∷ paths) r =
    text_eq r.source_path_key (source_path_key c path) || is_key_of c paths r

-- a row that was found must be readable
abbrev pub read_row : Option QueueRow → Tx (Option QueueItem)
read_row none = pure none
read_row (some r) = do item ← require database_unavailable (row_to_item r); pure (some item)

unfoldable pub find_newest_by_source_path : Ctx → List Text → Tx (Option QueueItem)
find_newest_by_source_path c [] = pure none
find_newest_by_source_path c paths = do
  row ← read (λ db. select_first newest_item_first (is_key_of c paths) db.items)
  read_row row

-- every row that is returned must be readable
unfoldable pub read_rows : List QueueRow → Tx (List QueueItem)
read_rows [] = pure []
read_rows (r ∷ rows) = do
  item ← require database_unavailable (row_to_item r)
  items ← read_rows rows
  pure (item ∷ items)

abbrev pub by_id_order : QueueRow → QueueRow → Bool
by_id_order a b = ltb a.id b.id

unfoldable pub list : Tx (List QueueItem)
list = do rows ← read (λ db. order_by by_id_order db.items); read_rows rows

-- `HistoryEntry`, and `row_to_history_entry`
pub record HistoryEntry : Type 0 where
  pub receipt_id : ℕ
  pub queue_item_id : ℕ
  pub at : ℕ
  pub direction : OperationDirection
  pub kind : OperationKind
  pub stage : OperationStage
  pub original_path : Text
  pub new_path : Text

abbrev pub history_entry : ReceiptRow → HistoryEntry
history_entry rc = record {
  receipt_id = rc.id;
  queue_item_id = rc.queue_item_id;
  at = rc.updated_at;
  direction = rc.direction;
  kind = rc.kind;
  stage = rc.stage;
  original_path = rc.source;
  new_path = rc.destination;
}

-- `HISTORY_LIMIT`
abbrev pub history_limit : ℕ
history_limit = 500

abbrev pub min : ℕ → ℕ → ℕ
min a b = if leb a b then a else b

-- ORDER BY receipts.updated_at DESC, receipts.id DESC
abbrev pub latest_operation_first : ReceiptRow → ReceiptRow → Bool
latest_operation_first a b =
    ltb b.updated_at a.updated_at || (a.updated_at == b.updated_at && ltb b.id a.id)

-- a finished operation on an item that is still there
abbrev pub in_history : Db → ReceiptRow → Bool
in_history db rc = not (is_open rc.stage) && exists_where (λ r. r.id == rc.queue_item_id) db.items

unfoldable pub list_operation_history : ℕ → Tx (List HistoryEntry)
list_operation_history limit = read (λ db. map history_entry (
    limit_to (min limit history_limit)
      (order_by latest_operation_first (select_where (in_history db) db.receipts))))
