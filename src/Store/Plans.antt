-- ===== src/Store/Plans.antt =====
-- About the journal, store.rs: the plan of an entry, which is its source, destination, hash, kind and
-- direction.
pub mod Queueing
pub mod Operations
pub mod Results
use intern.Prelude.{
  ℕ, ◌<◌, Text, String, ◌≡◌, refl, sym, ◌∙◌, Bool, true, false, Option, none, some, List, All,
  All-map, arith,
}
use intern.Prelude.Table.{update_where, delete_where}
use intern.Prelude.Table
use intern.Domain.Error.{ErrorCode, InternResult, ok, err}
use intern.Receipt.{OperationReceipt}
use intern.Store.Db.{Db, QueueRow, ReceiptRow, SessionRow, Ctx}
use intern.Store.Tx.{
  Tx, Ending, commit, rollback, ◌>>=◌, ◌>>◌, pure, guard, require, read, resume, settle,
  settle_ending, transaction, transaction_ending, query_one, update_sessions, update_items,
  update_receipts, cas_items, cas_receipts, row_to_item,
}
use intern.Store.Session.{touch_session}

-- what stays the same in the row of a receipt
abbrev pub SamePlan : OperationReceipt → OperationReceipt → Type 0
SamePlan a b =
    (a.source ≡ b.source)
    × (a.destination ≡ b.destination)
    × (a.pre_operation_hash ≡ b.pre_operation_hash)
    × (a.kind ≡ b.kind)
    × (a.direction ≡ b.direction)
    × (a.queue_item_id ≡ b.queue_item_id)

-- Every row with the id of the receipt has its plan, and no new row will get that id.
abbrev pub Planned : OperationReceipt → Db → Type 0
Planned r db =
    All (λ rc. rc.id ≡ r.id → SamePlan rc.receipt r) db.receipts × (r.id < db.next_receipt_id)

-- an action that leaves it so
pub record Leaves {A : Type 0} (r : OperationReceipt) (m : Tx A) : Type 0 where
  pub at : (db : Db) → Planned r db → Planned r (m db).0

module _ {A : Type 0} (r : OperationReceipt) where
  pub Leaves-pure : (a : A) → Leaves r (pure a)
  unfolding pure
  Leaves-pure a = record { at = λ db v. v }

  pub Leaves-require : (e : ErrorCode) (x : Option A) → Leaves r (require e x)
  unfolding require
  Leaves-require e none = record { at = λ db v. v }
  Leaves-require e (some a) = record { at = λ db v. v }

  pub Leaves-read : (q : Db → A) → Leaves r (read q)
  unfolding read
  Leaves-read q = record { at = λ db v. v }

  settle-Leaves :
      (db : Db) (out : Db × InternResult A)
      → Planned r db
      → Planned r out.0
      → Planned r (settle db out).0
  settle-Leaves db (after, ok a) v w = w
  settle-Leaves db (after, err e) v w = v

  settle_ending-Leaves :
      (db : Db) (out : Db × InternResult (Ending A))
      → Planned r db
      → Planned r out.0
      → Planned r (settle_ending db out).0
  settle_ending-Leaves db (after, ok (commit a)) v w = w
  settle_ending-Leaves db (after, ok (rollback a)) v w = v
  settle_ending-Leaves db (after, err e) v w = v

  pub Leaves-transaction : (m : Tx A) → Leaves r m → Leaves r (transaction m)
  unfolding transaction
  Leaves-transaction m k = record { at = λ db v. settle-Leaves db (m db) v (k.at db v) }

  pub Leaves-transaction_ending : (m : Tx (Ending A)) → Leaves r m → Leaves r (transaction_ending m)
  unfolding transaction_ending
  Leaves-transaction_ending m k = record {
    at = λ db v. settle_ending-Leaves db (m db) v (k.at db v);
  }

module _ {A B : Type 0} (r : OperationReceipt) where
  resume-Leaves :
      (k : A → Tx B) (out : Db × InternResult A)
      → ((a : A) → Leaves r (k a))
      → Planned r out.0
      → Planned r (resume k out).0
  resume-Leaves k (db, ok a) next v = (next a).at db v
  resume-Leaves k (db, err e) next v = v

  pub Leaves-bind :
      (m : Tx A) (k : A → Tx B) → Leaves r m → ((a : A) → Leaves r (k a)) → Leaves r (m >>= k)
  unfolding ◌>>=◌
  Leaves-bind m k km kk = record { at = λ db v. resume-Leaves k (m db) kk (km.at db v) }

module _ {B : Type 0} (r : OperationReceipt) where
  pub Leaves-then : (m : Tx (Unit {0})) (k : Tx B) → Leaves r m → Leaves r k → Leaves r (m >> k)
  unfolding ◌>>◌
  Leaves-then m k km kk = record {
    at = λ db v. resume-Leaves r (λ _. k) (m db) (λ _. kk) (km.at db v);
  }

module _ (r : OperationReceipt) where
  pub Leaves-guard : (b : Bool) (e : ErrorCode) → Leaves r (guard b e)
  unfolding guard
  Leaves-guard true e = record { at = λ db v. v }
  Leaves-guard false e = record { at = λ db v. v }

  pub Leaves-update_items :
      (p : Db → QueueRow → Bool) (f : QueueRow → QueueRow) → Leaves r (update_items p f)
  unfolding update_items
  Leaves-update_items p f = record { at = λ db v. v }

  pub Leaves-update_sessions :
      (p : SessionRow → Bool) (f : SessionRow → SessionRow) → Leaves r (update_sessions p f)
  unfolding update_sessions
  Leaves-update_sessions p f = record { at = λ db v. v }

  -- An UPDATE of receipts that keeps their ids and plans.
  pub Leaves-update_receipts :
      (p : Db → ReceiptRow → Bool) (f : ReceiptRow → ReceiptRow)
      → ((rc : ReceiptRow) → (f rc).id ≡ rc.id)
      → ((rc : ReceiptRow) → SamePlan rc.receipt r → SamePlan (f rc).receipt r)
      → Leaves r (update_receipts p f)
  unfolding update_receipts
  Leaves-update_receipts p f same_id same_plan = record {
    at = λ db v. (
      Table.All-update _ (p db) f db.receipts
          (λ rc hit h e. same_plan rc (h (sym (same_id rc) ∙ e))) v.0,
      v.1,
    );
  }

  pub Leaves-cas_items :
      (p : Db → QueueRow → Bool) (f : QueueRow → QueueRow) → Leaves r (cas_items p f)
  unfolding cas_items
  Leaves-cas_items p f = Leaves-bind r _ _ (Leaves-update_items p f) (λ n. Leaves-guard _ _)

  pub Leaves-cas_receipts :
      (p : Db → ReceiptRow → Bool) (f : ReceiptRow → ReceiptRow)
      → ((rc : ReceiptRow) → (f rc).id ≡ rc.id)
      → ((rc : ReceiptRow) → SamePlan rc.receipt r → SamePlan (f rc).receipt r)
      → Leaves r (cas_receipts p f)
  unfolding cas_receipts
  Leaves-cas_receipts p f same_id same_plan =
      Leaves-bind r _ _ (Leaves-update_receipts p f same_id same_plan) (λ n. Leaves-guard _ _)

  pub Leaves-query_one : (p : QueueRow → Bool) → Leaves r (query_one p)
  unfolding query_one
  Leaves-query_one p =
      Leaves-bind r _ _ (Leaves-read r _)
        λ row. Leaves-bind r _ _ (Leaves-require r _ row) λ x. Leaves-require r _ (row_to_item x)

  pub Leaves-touch : (c : Ctx) → Leaves r (touch_session c)
  unfolding touch_session
  Leaves-touch c = Leaves-bind r _ _ (Leaves-update_sessions _ _) (λ n. Leaves-guard _ _)

  -- A compare-and-swap on an item, with or without a heartbeat before it.
  pub Leaves-swap :
      (p : Db → QueueRow → Bool) (f : QueueRow → QueueRow) (q : QueueRow → Bool)
      → Leaves r (cas_items p f >> query_one q)
  Leaves-swap p f q = Leaves-then r _ _ (Leaves-cas_items p f) (Leaves-query_one q)

  pub Leaves-touched_swap :
      (c : Ctx) (p : Db → QueueRow → Bool) (f : QueueRow → QueueRow) (q : QueueRow → Bool)
      → Leaves r (transaction (touch_session c >> (cas_items p f >> query_one q)))
  Leaves-touched_swap c p f q =
      Leaves-transaction r _ (Leaves-then r _ _ (Leaves-touch c) (Leaves-swap p f q))
