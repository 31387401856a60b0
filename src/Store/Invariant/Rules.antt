-- ===== src/Store/Invariant/Rules.antt =====
-- One rule for each way to build an action that keeps the invariant.
use intern.Prelude.{
  ℕ, ◌≤◌, ◌<◌, String, ◌≡◌, refl, Bool, true, false, Option, none, some, arith, Bool-cases, inl,
  inr, ◌==◌, ==_iff, List, All, All-map, ap,
}
use intern.Prelude.Table.{count_where, exists_where, update_where}
use intern.Prelude.Table
use intern.Domain.Error.{ErrorCode, InternResult, ok, err}
use intern.Store.Db.{Db, QueueRow, Ctx, SessionRow}
use intern.Store.Tx.{
  Tx, Ending, commit, rollback, ◌>>=◌, ◌>>◌, pure, guard, require, read, resume, settle,
  settle_ending, transaction, transaction_ending, query_one, update_sessions, update_items,
  cas_items, row_to_item,
}
use intern.Store.Session.{touch_session, is_session}
use intern.Store.Queue.{active_row, has_key}
use intern.Store.Invariant.Defs.{Inv, InvWith, Keeps, RowOk, RowOk-sessions}

module _ {A : Type 0} (o : Option String) where
  pub Keeps-pure : (a : A) → Keeps o (pure a)
  unfolding pure
  Keeps-pure a = record { at = λ db v. v }

  pub Keeps-require : (e : ErrorCode) (x : Option A) → Keeps o (require e x)
  unfolding require
  Keeps-require e none = record { at = λ db v. v }
  Keeps-require e (some a) = record { at = λ db v. v }

  pub Keeps-read : (q : Db → A) → Keeps o (read q)
  unfolding read
  Keeps-read q = record { at = λ db v. v }

  pub Keeps-settle :
      (db : Db) (out : Db × InternResult A)
      → InvWith o db
      → InvWith o out.0
      → InvWith o (settle db out).0
  Keeps-settle db (after, ok a) v w = w
  Keeps-settle db (after, err e) v w = v

  pub Keeps-settle_ending :
      (db : Db) (out : Db × InternResult (Ending A))
      → InvWith o db
      → InvWith o out.0
      → InvWith o (settle_ending db out).0
  Keeps-settle_ending db (after, ok (commit a)) v w = w
  Keeps-settle_ending db (after, ok (rollback a)) v w = v
  Keeps-settle_ending db (after, err e) v w = v

  pub Keeps-transaction : (m : Tx A) → Keeps o m → Keeps o (transaction m)
  unfolding transaction
  Keeps-transaction m k = record { at = λ db v. Keeps-settle db (m db) v (k.at db v) }

  pub Keeps-transaction_ending : (m : Tx (Ending A)) → Keeps o m → Keeps o (transaction_ending m)
  unfolding transaction_ending
  Keeps-transaction_ending m k = record { at = λ db v. Keeps-settle_ending db (m db) v (k.at db v) }

pub Keeps-guard : (o : Option String) (b : Bool) (e : ErrorCode) → Keeps o (guard b e)
unfolding guard
Keeps-guard o true e = record { at = λ db v. v }
Keeps-guard o false e = record { at = λ db v. v }

module _ {A B : Type 0} (o : Option String) where
  resume-keeps :
      (k : A → Tx B) (out : Db × InternResult A)
      → ((a : A) → out.1 ≡ ok a → InvWith o (k a out.0).0)
      → InvWith o out.0
      → InvWith o (resume k out).0
  resume-keeps k (db, ok a) next v = next a refl
  resume-keeps k (db, err e) next v = v

  pub Keeps-bind :
      (m : Tx A) (k : A → Tx B) → Keeps o m → ((a : A) → Keeps o (k a)) → Keeps o (m >>= k)
  unfolding ◌>>=◌
  Keeps-bind m k km kk = record {
    at = λ db v. resume-keeps k (m db) (λ a _. (kk a).at (m db).0 (km.at db v)) (km.at db v);
  }

module _ {B : Type 0} (o : Option String) where
  pub Keeps-then : (m : Tx (Unit {0})) (k : Tx B) → Keeps o m → Keeps o k → Keeps o (m >> k)
  unfolding ◌>>◌
  Keeps-then m k km kk = record {
    at = λ db v. resume-keeps o (λ _. k) (m db) (λ a _. kk.at (m db).0 (km.at db v)) (km.at db v);
  }

-- The rest may use what the test says.
pub Keeps-guarded :
    {B : Type 0} (o : Option String) (b : Bool) (e : ErrorCode) (k : Tx B)
    → (b ≡ true → Keeps o k)
    → Keeps o (guard b e >> k)
unfolding guard ◌>>◌
Keeps-guarded o true e k kk = record { at = λ db v. (kk refl).at db v }
Keeps-guarded o false e k kk = record { at = λ db v. v }

pub Keeps-query_one : (o : Option String) (p : QueueRow → Bool) → Keeps o (query_one p)
unfolding query_one
Keeps-query_one o p =
    Keeps-bind o _ _ (Keeps-read o _)
      (λ row. Keeps-bind o _ _ (Keeps-require o _ row) (λ r. Keeps-require o _ (row_to_item r)))

-- The rest of an operation that has touched its session may use that the session is open.
abbrev pub beat : Ctx → SessionRow → SessionRow
beat c s = record s { heartbeat_at = c.now }

unfoldable pub touched_sessions : Ctx → List SessionRow → List SessionRow
touched_sessions c = update_where (is_session c.session) (beat c)

pub touched-Inv :
    (c : Ctx) (db : Db) → Inv db → Inv (record db { sessions = touched_sessions c db.sessions })
unfolding touched_sessions
touched-Inv c db v = record {
  rows =
      All-map db.items
        (λ r h.
          RowOk-sessions _ _ _ r
            (λ s e.
              Table.exists-update (is_session s) (is_session c.session) (beat c) db.sessions
                (λ x _ k. k) e)
            h)
        v.rows;
  single_flight = v.single_flight;
  item_ids = v.item_ids;
  item_ids_used = v.item_ids_used;
  item_keys = v.item_keys;
  receipt_ids = v.receipt_ids;
  receipt_ids_used = v.receipt_ids_used;
  open_receipts = v.open_receipts;
  session_ids = λ s.
      rw
        (Table.count-update_same (is_session s) (is_session c.session) (beat c) db.sessions
          (λ x _. refl))
        (v.session_ids s);
}

touched-open :
    (c : Ctx) (db : Db)
    → (count_where (is_session c.session) db.sessions == 1) ≡ true
    → exists_where (is_session c.session) (touched_sessions c db.sessions) ≡ true
unfolding touched_sessions
touched-open c db one =
    Table.exists-update (is_session c.session) _ _ db.sessions (λ x _ k. k)
      (Table.exists_of_count_pos (is_session c.session) db.sessions
        (omega (arith, (==_iff _ 1).0 one)))

-- The rest of an operation that has touched its session may use that the session is open.
pub Keeps-touch :
    {B : Type 0} (c : Ctx) (k : Tx B) → Keeps (some c.session) k → Keeps none (touch_session c >> k)
unfolding touch_session update_sessions guard ◌>>=◌ ◌>>◌ touched_sessions
Keeps-touch c k kk = record {
  at = λ db v. elim (Bool-cases (count_where (is_session c.session) db.sessions == 1)) [
    | inl one ↦
        rw (one, guard)
          (
            (kk.at (record db { sessions = touched_sessions c db.sessions })
                (touched-Inv c db v.0, touched-open c db one)).0,
            tt,
          )
    | inr other ↦ rw (other, guard) (touched-Inv c db v.0, tt)
  ];
}

-- An UPDATE that may run where `o` says: it keeps the keys of the rows that it changes, leaves them
-- sound, and leaves one item at most that is being worked on.
pub record Safe (o : Option String) (p : Db → QueueRow → Bool) (f : QueueRow → QueueRow)
    : Type 0 where
  pub same_id : (r : QueueRow) → (f r).id ≡ r.id
  pub same_key : (r : QueueRow) → (f r).source_path_key ≡ r.source_path_key
  pub same_hash : (r : QueueRow) → (f r).source_hash ≡ r.source_hash
  pub sound :
      (db : Db)
      → InvWith o db
      → (r : QueueRow) → p db r ≡ true
      → RowOk db.sessions db.receipts r
      → RowOk db.sessions db.receipts (f r)
  pub flight :
      (db : Db) → InvWith o db → count_where active_row (update_where (p db) f db.items) ≤ 1

pub updated_rows-Inv :
    (p : QueueRow → Bool) (f : QueueRow → QueueRow) (db : Db)
    → ((r : QueueRow) → (f r).id ≡ r.id)
    → ((r : QueueRow) → (f r).source_path_key ≡ r.source_path_key)
    → ((r : QueueRow) → (f r).source_hash ≡ r.source_hash)
    → All (RowOk db.sessions db.receipts) (update_where p f db.items)
    → count_where active_row (update_where p f db.items) ≤ 1
    → Inv db
    → Inv (record db { items = update_where p f db.items })
updated_rows-Inv p f db same_id same_key same_hash sound flight v = record {
  rows = sound;
  single_flight = flight;
  item_ids = λ k.
      rw
        (Table.count-update_same (λ r. r.id == k) p f db.items
          (λ r _. ap (λ (i : ℕ). i == k) (same_id r)))
        (v.item_ids k);
  item_ids_used =
      Table.All-update (λ r. r.id < db.next_item_id) p f db.items (λ r _ h. rw (same_id r) h)
        v.item_ids_used;
  item_keys = λ key hash.
      rw
        (Table.count-update_same (has_key key hash) p f db.items
          (λ r _. rw (same_key r, same_hash r)))
        (v.item_keys key hash);
  receipt_ids = v.receipt_ids;
  receipt_ids_used = v.receipt_ids_used;
  open_receipts = v.open_receipts;
  session_ids = v.session_ids;
}

pub update_items-Inv :
    (p : QueueRow → Bool) (f : QueueRow → QueueRow) (db : Db)
    → ((r : QueueRow) → (f r).id ≡ r.id)
    → ((r : QueueRow) → (f r).source_path_key ≡ r.source_path_key)
    → ((r : QueueRow) → (f r).source_hash ≡ r.source_hash)
    → ((r : QueueRow)
        → p r ≡ true
        → RowOk db.sessions db.receipts r
        → RowOk db.sessions db.receipts (f r))
    → count_where active_row (update_where p f db.items) ≤ 1
    → Inv db
    → Inv (record db { items = update_where p f db.items })
update_items-Inv p f db same_id same_key same_hash sound flight v =
    updated_rows-Inv p f db same_id same_key same_hash
      (Table.All-update _ p f db.items sound v.rows) flight v

pub Keeps-update_items :
    (o : Option String) (p : Db → QueueRow → Bool) (f : QueueRow → QueueRow)
    → Safe o p f
    → Keeps o (update_items p f)
unfolding update_items
Keeps-update_items o p f s = record {
  at = λ db v. (
    update_items-Inv (p db) f db s.same_id s.same_key s.same_hash (s.sound db v) (s.flight db v)
        v.0,
    v.1,
  );
}

pub Keeps-cas_items :
    (o : Option String) (p : Db → QueueRow → Bool) (f : QueueRow → QueueRow)
    → Safe o p f
    → Keeps o (cas_items p f)
unfolding cas_items
Keeps-cas_items o p f s =
    Keeps-bind o _ _ (Keeps-update_items o p f s) (λ changed. Keeps-guard o _ _)

-- The common shape of an operation: the swap, and the row read back; with the session's heartbeat
-- before it, or without.
module _ (p : Db → QueueRow → Bool) (f : QueueRow → QueueRow) (id : ℕ) where
  pub Keeps-swap :
      (o : Option String) → Safe o p f → Keeps o (cas_items p f >> query_one (λ r. r.id == id))
  Keeps-swap o s = Keeps-then o _ _ (Keeps-cas_items o p f s) (Keeps-query_one o (λ r. r.id == id))

  pub Keeps-touched_swap :
      (c : Ctx)
      → Safe (some c.session) p f
      → Keeps none (transaction (touch_session c >> (cas_items p f >> query_one (λ r. r.id == id))))
  Keeps-touched_swap c s =
      Keeps-transaction none _ (Keeps-touch c _ (Keeps-swap (some c.session) s))

-- An UPDATE after which no item is being worked on that was not before.
pub quiet_flight :
    (p : QueueRow → Bool) (f : QueueRow → QueueRow) (db : Db)
    → Inv db
    → ((r : QueueRow) → p r ≡ true → active_row (f r) ≡ true → active_row r ≡ true)
    → count_where active_row (update_where p f db.items) ≤ 1
quiet_flight p f db v quiet =
    omega (arith, Table.count-update-le active_row p f db.items quiet, v.single_flight)
