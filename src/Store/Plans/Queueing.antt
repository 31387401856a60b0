-- ===== src/Store/Plans/Queueing.antt =====
-- About the operations of the queue, store.rs, and the plans of the journal.
use intern.Prelude.{ℕ, Text, String, Bool, true, false, Bool-cases, inl, inr, Option, none, some}
use intern.Prelude.Table.{delete_where, exists_where}
use intern.Prelude.Table
use intern.Domain.{QueueStatus}
use intern.Domain.Error.{ErrorCode}
use intern.Receipt.{OperationReceipt}
use intern.Store.Db.{QueueRow, Ctx}
use intern.Store.Session.{is_session, open_session}
use intern.Store.Queue.{
  has_key, windows_path_key, insert_item, enqueue, finish_claim, claim_row, claim_next, renew_lease,
  transition, cas_status, complete_keep_original, delete_items, record_processing_failure,
}
use intern.Store.Applying.{begin_applying}
use intern.Store.Plans.{
  Leaves, Leaves-pure, Leaves-require, Leaves-read, Leaves-transaction, Leaves-transaction_ending,
  Leaves-bind, Leaves-then, Leaves-guard, Leaves-update_items, Leaves-query_one, Leaves-touch,
  Leaves-swap, Leaves-touched_swap,
}

module _ (r : OperationReceipt) where
  pub Leaves-insert_item :
      (c : Ctx) (path : Text) (hash : String) → Leaves r (insert_item c path hash)
  unfolding insert_item
  Leaves-insert_item c path hash = record {
    at = λ db v.
        elim (Bool-cases
          (exists_where (has_key (windows_path_key c.to_lowercase path) hash) db.items)) [
            | inl there ↦ rw there v
            | inr absent ↦ rw absent v
          ];
  }

  pub Leaves-open_session : (c : Ctx) → Leaves r (open_session c)
  unfolding open_session
  Leaves-open_session c = record {
    at = λ db v. elim (Bool-cases (exists_where (is_session c.session) db.sessions)) [
      | inl there ↦ rw there v
      | inr absent ↦ rw absent v
    ];
  }

  pub Leaves-enqueue : (c : Ctx) (path : Text) (hash : String) → Leaves r (enqueue c path hash)
  unfolding enqueue
  Leaves-enqueue c path hash =
      Leaves-transaction r _
        (Leaves-then r _ _ (Leaves-insert_item c _ hash) (Leaves-query_one r _))

  pub Leaves-finish_claim : (b : Bool) (id : ℕ) → Leaves r (finish_claim b id)
  unfolding finish_claim
  Leaves-finish_claim false id = Leaves-pure r _
  Leaves-finish_claim true id = Leaves-bind r _ _ (Leaves-query_one r _) (λ item. Leaves-pure r _)

  pub Leaves-claim_row : (c : Ctx) (o : Option QueueRow) → Leaves r (claim_row c o)
  unfolding claim_row
  Leaves-claim_row c none = Leaves-pure r _
  Leaves-claim_row c (some row) =
      Leaves-bind r _ _ (Leaves-update_items r _ _) (λ n. Leaves-finish_claim _ _)

  pub Leaves-claim_next : (c : Ctx) → Leaves r (claim_next c)
  unfolding claim_next
  Leaves-claim_next c = Leaves-transaction_ending r _ (
      Leaves-then r _ _ (Leaves-touch r c)
        (Leaves-bind r _ _ (Leaves-read r _) (λ row. Leaves-claim_row c row)))

  pub Leaves-renew_lease : (c : Ctx) (id : ℕ) → Leaves r (renew_lease c id)
  unfolding renew_lease
  Leaves-renew_lease c id = Leaves-then r _ _ (Leaves-touch r c) (Leaves-swap r _ _ _)

  pub Leaves-transition :
      (c : Ctx) (id : ℕ) (s t : QueueStatus) (e : Option ErrorCode)
      → Leaves r (transition c id s t e)
  unfolding transition
  Leaves-transition c id s t e =
      Leaves-then r _ _ (Leaves-guard r _ _) (Leaves-transaction r _ (Leaves-swap r _ _ _))

  pub Leaves-cas_status :
      (c : Ctx) (id : ℕ) (s t : QueueStatus) (b : Bool) → Leaves r (cas_status c id s t b)
  unfolding cas_status
  Leaves-cas_status c id s t b = Leaves-swap r _ _ _

  pub Leaves-keep_original :
      (c : Ctx) (id : ℕ) (s : QueueStatus) → Leaves r (complete_keep_original c id s)
  unfolding complete_keep_original
  Leaves-keep_original c id s = Leaves-then r _ _ (Leaves-guard r _ _) (Leaves-cas_status _ _ _ _ _)

  pub Leaves-delete_items : (p : QueueRow → Bool) → Leaves r (delete_items p)
  unfolding delete_items
  Leaves-delete_items p = record { at = λ db v. (Table.All-delete _ _ db.receipts v.0, v.1) }

  pub Leaves-processing_failure :
      (c : Ctx) (id : ℕ) (e : ErrorCode) → Leaves r (record_processing_failure c id e)
  unfolding record_processing_failure
  Leaves-processing_failure c id e = Leaves-transaction r _ (
      Leaves-bind r _ _ (Leaves-read r _) λ row.
        Leaves-bind r _ _ (Leaves-require r _ row)
          λ x. Leaves-bind r _ _ (Leaves-update_items r _ _) λ n. Leaves-pure r _)

  pub Leaves-begin : (c : Ctx) (id : ℕ) (s : QueueStatus) → Leaves r (begin_applying c id s)
  unfolding begin_applying
  Leaves-begin c id s = Leaves-then r _ _ (Leaves-guard r _ _) (Leaves-touched_swap r _ _ _ _)
