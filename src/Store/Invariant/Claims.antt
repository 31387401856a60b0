-- ===== src/Store/Invariant/Claims.antt =====
-- Work is started on one item at a time: `claim_next`, `begin_applying` and
-- `claim_deferred_reconciliation` keep the invariant.
use intern.Prelude.{
  ℕ, ◌≤◌, String, ◌≡◌, refl, Bool, true, false, ◌&&◌, not, Option, none, some, arith, Bool-cases,
  inl, inr, ◌==◌, is_some,
}
use intern.Prelude.Table.{count_where, exists_where, update_where, select_first}
use intern.Prelude.Table
use intern.Domain.{QueueStatus, queued, ready, needs_review, is_status, is_status_iff}
use intern.Store.Db.{Db, QueueRow, Ctx}
use intern.Store.Tx.{read, ◌>>=◌, pure, update_items}
use intern.Store.Queue.{
  active_row, by_id, claimed, next_queued, finish_claim, claim_row, claim_next,
}
use intern.Store.Applying.{other_active, is_applicable, begun, begin_applying}
use intern.Store.Reconcile.{
  published_apply, flagged_source_delete, deferred_published, reclaimed,
  claim_deferred_reconciliation,
}
use intern.Store.Invariant.Defs.{Inv, InvWith, Keeps, fits}
use intern.Store.Invariant.Rules.{
  Safe, Keeps-touch, Keeps-touched_swap, Keeps-bind, Keeps-guarded, Keeps-query_one,
  Keeps-transaction_ending, Keeps-pure, update_items-Inv,
}

-- Where no item is being worked on, an UPDATE by id makes one at most.
idle_flight :
    (id : ℕ) (p : QueueRow → Bool) (f : QueueRow → QueueRow) (db : Db)
    → Inv db
    → exists_where active_row db.items ≡ false
    → ((r : QueueRow) → p r ≡ true → (r.id == id) ≡ true)
    → count_where active_row (update_where p f db.items) ≤ 1
idle_flight id p f db v idle named = omega (
  arith,
  Table.count-update-le_add active_row p f db.items,
  Table.count-eq-zero_of_not_exists active_row db.items idle,
  Table.count-le (λ r. r.id == id) p db.items named,
  v.item_ids id,
)

-- So too where only rows that have that id, and are not being worked on, match.
start_flight :
    (id : ℕ) (p : QueueRow → Bool) (f : QueueRow → QueueRow) (db : Db)
    → Inv db
    → ((r : QueueRow)
        → p r ≡ true
        → ((r.id == id) ≡ true)
          × (active_row r ≡ false)
          × (exists_where (other_active id) db.items ≡ false))
    → count_where active_row (update_where p f db.items) ≤ 1
start_flight id p f db v guards = elim (Bool-cases (exists_where p db.items)) [
  | inr unmatched ↦ omega (
    arith,
    Table.count-update-le_add active_row p f db.items,
    Table.count-eq-zero_of_not_exists p db.items unmatched,
    v.single_flight,
  )
  | inl matched ↦
      let (r, hit) = Table.exists-witness p db.items matched in
      omega (
        arith,
        Table.count-update-le_add active_row p f db.items,
        v.item_ids id,
        Table.count-le (λ r. r.id == id) p db.items (λ r h. (guards r h).0),
        Table.count_pos_of_exists p db.items matched,
        Table.count-split (λ r. r.id == id) active_row db.items,
        Table.count-le (λ r. r.id == id && not (active_row r)) p db.items
            (λ r h. ground (arith, guards r h)),
        Table.count-split active_row (λ r. r.id == id) db.items,
        Table.count-le (λ r. r.id == id && active_row r) (λ r. active_row r && r.id == id) db.items
            (λ r h. ground arith),
        Table.count-le (other_active id) (λ r. active_row r && not (r.id == id)) db.items
            (λ r h. ground arith),
        Table.count-eq-zero_of_not_exists (other_active id) db.items (guards r hit).2,
      )
]

claimed-flight :
    (c : Ctx) (db : Db) (row : QueueRow)
    → Inv db
    → next_queued db ≡ some row
    → count_where active_row
        (update_where (λ r. r.id == row.id && is_status r.status queued) (claimed c) db.items)
      ≤ 1
unfolding next_queued
claimed-flight c db row v e =
    idle_flight row.id _ (claimed c) db v
      (ground (
        arith,
        Table.select_first-matches by_id
            (λ r. is_status r.status queued && not (exists_where active_row db.items)) db.items row
            e,
      ))
      (λ r hit. ground arith)

claimed-Inv :
    (c : Ctx) (db : Db) (row : QueueRow)
    → InvWith (some c.session) db
    → next_queued db ≡ some row
    → Inv (record db {
      items = update_where (λ r. r.id == row.id && is_status r.status queued) (claimed c) db.items;
    })
claimed-Inv c db row v e =
    update_items-Inv _ (claimed c) db (λ r. refl) (λ r. refl) (λ r. refl)
      (λ r hit h. ground (arith, v.1)) (claimed-flight c db row v.0 e) v.0

finish_claim-Keeps : (o : Option String) (b : Bool) (id : ℕ) → Keeps o (finish_claim b id)
unfolding finish_claim
finish_claim-Keeps o false id = Keeps-pure o _
finish_claim-Keeps o true id =
    Keeps-bind o _ _ (Keeps-query_one o (λ r. r.id == id)) (λ item. Keeps-pure o _)

claim-Keeps : (c : Ctx) → Keeps (some c.session) (do row ← read next_queued; claim_row c row)
unfolding claim_row read ◌>>=◌ update_items pure
claim-Keeps c = record { at = λ db v. at db v (next_queued db) refl }
  where
    at :
        (db : Db)
        → InvWith (some c.session) db
        → (row : Option QueueRow) → next_queued db ≡ row
        → InvWith (some c.session) (claim_row c row db).0
    at db v none e = v
    at db v (some row) e =
        (finish_claim-Keeps (some c.session) _ row.id).at _ (claimed-Inv c db row v e, v.1)

pub claim_next-Keeps : (c : Ctx) → Keeps none (claim_next c)
unfolding claim_next
claim_next-Keeps c = Keeps-transaction_ending none _ (Keeps-touch c _ (claim-Keeps c))

begun-Safe :
    (c : Ctx) (id : ℕ) (expected : QueueStatus)
    → is_applicable expected ≡ true
    → Safe
        (some c.session)
        (λ db r.
          r.id == id
          && (is_status r.status expected
              && (not (is_some r.active_receipt_id)
                  && not (exists_where (other_active id) db.items))))
        (begun c expected)
begun-Safe c id expected applicable = record {
  same_id = λ r. refl;
  same_key = λ r. refl;
  same_hash = λ r. refl;
  sound = λ db v r hit h. ground (arith, v.1, is_status_iff r.status expected);
  flight =
      λ db v. start_flight id _ _ db v.0 (λ r hit. ground (arith, is_status_iff r.status expected));
}

pub begin_applying-Keeps :
    (c : Ctx) (id : ℕ) (expected : QueueStatus) → Keeps none (begin_applying c id expected)
unfolding begin_applying
begin_applying-Keeps c id expected =
    Keeps-guarded none _ _ _
      (λ applicable. Keeps-touched_swap _ _ id c (begun-Safe c id expected applicable))

deferred-fits :
    (db : Db) (id : ℕ) (o : Option ℕ)
    → deferred_published db id o ≡ true
    → (k : ℕ) → o ≡ some k
    → exists_where (fits k id (some ready)) db.receipts ≡ true
deferred-fits db id none there k e = cc
deferred-fits db id (some j) there k e =
    let same : j ≡ k = ground arith in
    Table.exists-le (fits k id (some ready)) (published_apply id j) db.receipts
      (λ rc hit. rw (← same) (ground arith)) there

reclaimed-Safe :
    (c : Ctx) (id : ℕ)
    → Safe
        (some c.session)
        (λ db r.
          r.id == id
          && (is_status r.status needs_review
              && (flagged_source_delete r.error_code
                  && (not (is_some r.active_receipt_id)
                      && (deferred_published db r.id r.reconciliation_receipt_id
                          && not (exists_where (other_active id) db.items))))))
        (reclaimed c)
reclaimed-Safe c id = record {
  same_id = λ r. refl;
  same_key = λ r. refl;
  same_hash = λ r. refl;
  sound = λ db v r hit h. record {
    owner_active = λ _. refl;
    owner_open = λ s e. ground (arith, v.1);
    lease_active = refl;
    previous_applying = refl;
    previous_applicable = λ _. refl;
    receipt_applying = λ _. refl;
    receipt_fits = deferred-fits db r.id r.reconciliation_receipt_id (ground arith);
    failures_bounded = h.failures_bounded;
    failures_left = λ _. h.failures_left (ground arith);
  };
  flight = λ db v. start_flight id _ _ db v.0 (λ r hit. ground arith);
}

pub claim_deferred_reconciliation-Keeps :
    (c : Ctx) (id : ℕ) → Keeps none (claim_deferred_reconciliation c id)
unfolding claim_deferred_reconciliation
claim_deferred_reconciliation-Keeps c id = Keeps-touched_swap _ _ id c (reclaimed-Safe c id)
