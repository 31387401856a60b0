-- ===== src/Store/Invariant/Defs.antt =====
-- The invariant of the queue database, and the actions that keep it.
use intern.Prelude.{
  ℕ, ◌≤◌, ◌<◌, Text, String, ◌≡◌, Bool, true, false, ◌&&◌, Option, none, some, List, All, ◌==◌,
  is_some, arith,
}
use intern.Prelude.Table.{count_where, exists_where}
use intern.Domain.{QueueStatus, failed, applying, is_status, is_active}
use intern.Store.Db.{Db, QueueRow, SessionRow, ReceiptRow, new_db}
use intern.Store.Tx.{Tx}
use intern.Store.Session.{is_session}
use intern.Store.Queue.{active_row, has_key}
use intern.Store.Applying.{was, was_applicable, starts_from}
use intern.Store.Journal.{open_of}

-- the receipt `k` of the item `id`, in the direction that starts from the item's previous status
abbrev pub fits : ℕ → ℕ → Option QueueStatus → ReceiptRow → Bool
fits k id previous rc =
    rc.id == k && (rc.queue_item_id == id && was previous (starts_from rc.direction))

-- A row is sound: exactly the items that are being worked on hold a lease, and only they have an
-- owner, whose session is open. Exactly the items that are being applied know the status they came
-- from, `ready` or `completed`, and only they have a receipt, which is theirs and goes the way
-- that starts from that status. An item fails at its second failure.
pub record RowOk (sessions : List SessionRow) (receipts : List ReceiptRow) (r : QueueRow)
    : Type 0 where
  pub owner_active : is_some r.owner_session ≡ true → is_active r.status ≡ true
  pub owner_open :
      (s : String) → r.owner_session ≡ some s → exists_where (is_session s) sessions ≡ true
  pub lease_active : is_some r.lease_expires_at ≡ is_active r.status
  pub previous_applying : is_some r.previous_status ≡ is_status r.status applying
  pub previous_applicable :
      is_some r.previous_status ≡ true → was_applicable r.previous_status ≡ true
  pub receipt_applying : is_some r.active_receipt_id ≡ true → r.status ≡ applying
  pub receipt_fits :
      (k : ℕ)
      → r.active_receipt_id ≡ some k
      → exists_where (fits k r.id r.previous_status) receipts ≡ true
  pub failures_bounded : r.processing_failures ≤ 2
  pub failures_left : is_status r.status failed ≡ false → r.processing_failures ≤ 1

-- A sound row stays sound where no session is closed, and where no receipt that fits is lost.
pub RowOk-sessions :
    (sessions sessions' : List SessionRow) (receipts : List ReceiptRow) (r : QueueRow)
    → ((s : String)
        → exists_where (is_session s) sessions ≡ true
        → exists_where (is_session s) sessions' ≡ true)
    → RowOk sessions receipts r
    → RowOk sessions' receipts r
RowOk-sessions sessions sessions' receipts r keep h = record {
  owner_active = h.owner_active;
  owner_open = λ s e. keep s (h.owner_open s e);
  lease_active = h.lease_active;
  previous_applying = h.previous_applying;
  previous_applicable = h.previous_applicable;
  receipt_applying = h.receipt_applying;
  receipt_fits = h.receipt_fits;
  failures_bounded = h.failures_bounded;
  failures_left = h.failures_left;
}

pub RowOk-receipts :
    (sessions : List SessionRow) (receipts receipts' : List ReceiptRow) (r : QueueRow)
    → ((k : ℕ)
        → r.active_receipt_id ≡ some k
        → exists_where (fits k r.id r.previous_status) receipts ≡ true
        → exists_where (fits k r.id r.previous_status) receipts' ≡ true)
    → RowOk sessions receipts r
    → RowOk sessions receipts' r
RowOk-receipts sessions receipts receipts' r keep h = record {
  owner_active = h.owner_active;
  owner_open = h.owner_open;
  lease_active = h.lease_active;
  previous_applying = h.previous_applying;
  previous_applicable = h.previous_applicable;
  receipt_applying = h.receipt_applying;
  receipt_fits = λ k e. keep k e (h.receipt_fits k e);
  failures_bounded = h.failures_bounded;
  failures_left = h.failures_left;
}

abbrev pub RowsOk : Db → Type 0
RowsOk db = All (RowOk db.sessions db.receipts) db.items

-- Besides sound rows: one item at most is being worked on; item, receipt and session ids are
-- unique, and below the next key; a path and its content stand in one row at most; and an item has
-- one open receipt at most.
pub record Inv (db : Db) : Type 0 where
  pub rows : RowsOk db
  pub single_flight : count_where active_row db.items ≤ 1
  pub item_ids : (k : ℕ) → count_where (λ r. r.id == k) db.items ≤ 1
  pub item_ids_used : All (λ r. r.id < db.next_item_id) db.items
  pub item_keys : (key : Text) (hash : String) → count_where (has_key key hash) db.items ≤ 1
  pub receipt_ids : (k : ℕ) → count_where (λ rc. rc.id == k) db.receipts ≤ 1
  pub receipt_ids_used : All (λ rc. rc.id < db.next_receipt_id) db.receipts
  pub open_receipts : (k : ℕ) → count_where (open_of k) db.receipts ≤ 1
  pub session_ids : (s : String) → count_where (is_session s) db.sessions ≤ 1

-- What an action may know of a session: nothing, or that it is open.
abbrev pub Present : Option String → List SessionRow → Type 0
Present none sessions = Unit {0}
Present (some s) sessions = exists_where (is_session s) sessions ≡ true

abbrev pub InvWith : Option String → Db → Type 0
InvWith o db = Inv db × Present o db.sessions

-- an action that keeps the invariant, whether it succeeds or fails
pub record Keeps {A : Type 0} (o : Option String) (m : Tx A) : Type 0 where
  pub at : (db : Db) → InvWith o db → InvWith o (m db).0

pub Inv-new_db : Inv new_db
unfolding new_db count_where
Inv-new_db = record {
  rows = tt;
  single_flight = omega arith;
  item_ids = λ k. omega arith;
  item_ids_used = tt;
  item_keys = λ key hash. omega arith;
  receipt_ids = λ k. omega arith;
  receipt_ids_used = tt;
  open_receipts = λ k. omega arith;
  session_ids = λ s. omega arith;
}
