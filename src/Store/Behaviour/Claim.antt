-- ===== src/Store/Behaviour/Claim.antt =====
-- `claim_next` is first in, first out, one item at a time, and makes progress.
use intern.Prelude.{
  ◌≤◌, ◌≡◌, refl, ap, ◌∙◌, sym, true, false, ◌&&◌, not, Option, none, some, arith, Option-cases,
  inl, inr, ◌==◌, All, All-map,
}
use intern.Prelude.Table.{
  count_where, exists_where, update_where, find_where, select_first, IsOrder,
}
use intern.Prelude.Table
use intern.Domain.{queued, extracting, is_status, is_status_iff}
use intern.Domain.Error.{InternResult, ok}
use intern.Store.Db.{Db, QueueRow, QueueItem, Ctx}
use intern.Store.Tx.{
  ◌>>=◌, ◌>>◌, guard, read, pure, update_items, update_sessions, item_of, transaction_ending,
  settle_ending, commit,
}
use intern.Store.Session.{is_session, touch_session}
use intern.Store.Queue.{
  active_row, by_id, claimed, next_queued, finish_claim, claim_row, claim_next,
}
use intern.Store.Invariant.Defs.{Inv}
use intern.Store.Invariant.Rules.{touched_sessions, touched-Inv}
use intern.Store.Behaviour.Swap.{row_at, hit_once, readable}

-- the database after a heartbeat
abbrev pub touched : Ctx → Db → Db
touched c db = record db { sessions = touched_sessions c db.sessions }

-- A session that is open is touched; one that is not is a conflict, and nothing changes.
pub touch_open :
    (c : Ctx) (db : Db)
    → Inv db
    → exists_where (is_session c.session) db.sessions ≡ true
    → touch_session c db ≡ (touched c db, ok tt)
unfolding touch_session update_sessions guard touched_sessions ◌>>=◌
touch_open c db v there =
    let one : count_where (is_session c.session) db.sessions ≡ 1 = omega (
      arith,
      v.session_ids c.session,
      Table.count_pos_of_exists (is_session c.session) db.sessions there,
    ) in
    rw one

pub by_id-IsOrder : IsOrder by_id
by_id-IsOrder = record {
  irreflexive = λ a. ground arith;
  asymmetric = λ a b h. ground arith;
  negatively_transitive = λ a b k h h'. ground arith;
}

-- what a claim leads to
abbrev pub claim_spec : Ctx → Db → Option QueueRow → Db × InternResult (Option QueueItem)
claim_spec c db none = (db, ok none)
claim_spec c db (some r) = (
  record db {
    items = update_where (λ x. x.id == r.id && is_status x.status queued) (claimed c) db.items;
  },
  ok (some (item_of (claimed c r))),
)

claim_row_lem :
    (c : Ctx) (db : Db) (r : QueueRow)
    → Inv db
    → row_at r.id db ≡ some r
    → is_status r.status queued ≡ true
    → claim_row c (some r) db
      ≡ ((claim_spec c db (some r)).0, ok (commit (some (item_of (claimed c r)))))
unfolding claim_row update_items finish_claim pure ◌>>=◌
claim_row_lem c db r v found waiting =
    rw
      (hit_once r.id (λ _ x. is_status x.status queued) (claimed c) (λ x. refl) (λ x. omega arith)
        db v r found waiting)
      (rw (
        readable r.id (λ _ x. is_status x.status queued) (claimed c) (λ x. refl) (λ x. omega arith)
          db v r found waiting))

claim_row-none : (c : Ctx) (db : Db) → claim_row c none db ≡ (db, ok (commit none))
unfolding claim_row pure
claim_row-none c db = refl

-- The next item is a waiting one, is found by its id, and no waiting item has a smaller id; there
-- is one only while no item is being worked on.
next_queued-facts :
    (db : Db) (r : QueueRow)
    → Inv db
    → next_queued db ≡ some r
    → (row_at r.id db ≡ some r)
      × (is_status r.status queued ≡ true)
      × (exists_where active_row db.items ≡ false)
      × All (λ s. is_status s.status queued ≡ true → r.id ≤ s.id) db.items
unfolding next_queued
next_queued-facts db r v e =
    let waiting =
      Table.select_first-matches by_id
        (λ r. is_status r.status queued && not (exists_where active_row db.items)) db.items r e in
    (
      Table.All-select_first by_id _ (λ x. row_at x.id db ≡ some x) db.items r e
          (Table.All-found (λ x y. x.id == y.id) (λ a. ground arith) db.items
            (λ a. v.item_ids a.id)),
      ground arith,
      ground arith,
      All-map db.items (λ s k h. ground (arith, k))
          (Table.select_first-least by_id _ by_id-IsOrder db.items r e),
    )

-- For a session that is open, `claim_next` is a heartbeat, and then the claim of the next item.
pub claim_next_lem :
    (c : Ctx) (db : Db)
    → Inv db
    → exists_where (is_session c.session) db.sessions ≡ true
    → claim_next c db ≡ claim_spec c (touched c db) (next_queued (touched c db))
unfolding claim_next transaction_ending read ◌>>=◌ ◌>>◌
claim_next_lem c db v there =
    rw (touch_open c db v there) (elim (Option-cases (next_queued (touched c db))) [
      | inl nothing ↦ rw nothing (ap (settle_ending db) (claim_row-none c (touched c db)))
      | inr (r, e) ↦
          let (found, waiting, _, _) = next_queued-facts (touched c db) r (touched-Inv c db v) e in
          rw e (
            ap (settle_ending db)
              (claim_row_lem c (touched c db) r (touched-Inv c db v) found waiting))
    ])

-- What an item that `claim_next` answers with says, where the invariant holds and the session is
-- open: the item was waiting, is handed to this session as `extracting`, no waiting item has a
-- smaller id, and no item was being worked on.
pub claim_next-first :
    (c : Ctx) (db : Db) (item : QueueItem)
    → Inv db
    → exists_where (is_session c.session) db.sessions ≡ true
    → (claim_next c db).1 ≡ ok (some item)
    → (item.status ≡ extracting)
      × (item.owner_session ≡ some c.session)
      × ((r : QueueRow) × (row_at item.id db ≡ some r) × (r.status ≡ queued))
      × All (λ s. is_status s.status queued ≡ true → item.id ≤ s.id) db.items
      × (exists_where active_row db.items ≡ false)
claim_next-first c db item v there answer = elim (Option-cases (next_queued (touched c db))) [
  | inl nothing ↦ absurd (none_answer (rw nothing at spec_answer))
  | inr (r, e) ↦
      let (found, waiting, idle, first) =
        next_queued-facts (touched c db) r (touched-Inv c db v) e in
      let same : item_of (claimed c r) ≡ item = some_answer (rw e at spec_answer) in
      rw (← same) (refl, refl, (r, found, (is_status_iff r.status queued).0 waiting), first, idle)
]
  where
    spec_answer : (claim_spec c (touched c db) (next_queued (touched c db))).1 ≡ ok (some item)
    spec_answer = ap (λ o. o.1) (sym (claim_next_lem c db v there)) ∙ answer

    none_answer : ◌≡◌ {A = InternResult (Option QueueItem)} (ok none) (ok (some item)) → ⊥
    none_answer h = cc

    some_answer :
        {i : QueueItem}
        → ◌≡◌ {A = InternResult (Option QueueItem)} (ok (some i)) (ok (some item))
        → i ≡ item
    some_answer h = cc

next_of_waiting :
    (db : Db)
    → exists_where (λ r. is_status r.status queued) db.items ≡ true
    → exists_where active_row db.items ≡ false
    → (r : QueueRow) × (next_queued db ≡ some r)
unfolding next_queued
next_of_waiting db waiting idle = Table.select_first_of_exists by_id _ db.items (
    Table.exists-le (λ r. is_status r.status queued && not (exists_where active_row db.items))
      (λ r. is_status r.status queued) db.items (λ r h. ground arith) waiting)

-- Progress: where the invariant holds and the session is open, `claim_next` hands out an item
-- whenever one is waiting and none is being worked on.
pub claim_next_progress :
    (c : Ctx) (db : Db)
    → Inv db
    → exists_where (is_session c.session) db.sessions ≡ true
    → exists_where (λ r. is_status r.status queued) db.items ≡ true
    → exists_where active_row db.items ≡ false
    → (item : QueueItem) × ((claim_next c db).1 ≡ ok (some item))
claim_next_progress c db v there waiting idle =
    let (r, e) = next_of_waiting (touched c db) waiting idle in
    (item_of (claimed c r), ap (λ o. o.1) (claim_next_lem c db v there) ∙ rw e)
