-- ===== src/Store/Invariant/Sessions.antt =====
-- Sessions come and go, and the invariant stays.
use intern.Prelude.{
  ◌≡◌, refl, false, none, [], ◌∷◌, ◌++◌, arith, Bool-cases, inl, inr, ◌==◌, has_text, All, All-map,
  str_eq, eq_iff,
}
use intern.Prelude.Table.{count_where, exists_where, update_where, delete_where}
use intern.Prelude.Table
use intern.Store.Db.{Db, QueueRow, SessionRow, Ctx}
use intern.Store.Session.{is_session, open_session, close_session}
use intern.Store.Queue.{has_key}
use intern.Store.Invariant.Defs.{Inv, Keeps, RowOk, RowOk-sessions}
use intern.Store.Invariant.Rules.{quiet_flight}

abbrev new_session : Ctx → SessionRow
new_session c = record { session_id = c.session; heartbeat_at = c.now }

opened-Inv :
    (c : Ctx) (db : Db)
    → Inv db
    → exists_where (is_session c.session) db.sessions ≡ false
    → Inv (record db { sessions = db.sessions ++ new_session c ∷ [] })
unfolding count_where
opened-Inv c db v fresh = record {
  rows =
      All-map db.items
        (λ r h.
          RowOk-sessions _ _ _ r (λ s there. Table.exists-append (is_session s) db.sessions _ there)
            h)
        v.rows;
  single_flight = v.single_flight;
  item_ids = v.item_ids;
  item_ids_used = v.item_ids_used;
  item_keys = v.item_keys;
  receipt_ids = v.receipt_ids;
  receipt_ids_used = v.receipt_ids_used;
  open_receipts = v.open_receipts;
  session_ids = λ s.
      rw (Table.count-append (is_session s) db.sessions _) (elim (Bool-cases (str_eq c.session s)) [
        | inr other ↦ rw other (omega (arith, v.session_ids s))
        | inl same ↦ rw same (
            rw (← (eq_iff c.session s).0 same)
              (omega (arith, Table.count-eq-zero_of_not_exists _ db.sessions fresh)))
      ]);
}

pub open_session-Keeps : (c : Ctx) → Keeps none (open_session c)
unfolding open_session
open_session-Keeps c = record {
  at = λ db v. elim (Bool-cases (exists_where (is_session c.session) db.sessions)) [
    | inl known ↦ rw known v
    | inr fresh ↦ rw fresh (opened-Inv c db v.0 fresh, tt)
  ];
}

abbrev disowned : QueueRow → QueueRow
disowned r = record r { owner_session = none }

-- A row that another session owns still has an open session.
disowned-rows :
    (c : Ctx) (db : Db)
    → Inv db
    → All
        (RowOk (delete_where (is_session c.session) db.sessions) db.receipts)
        (update_where (λ r. has_text r.owner_session c.session) disowned db.items)
disowned-rows c db v =
    Table.All-update_to _ _ (λ r. has_text r.owner_session c.session) disowned db.items
      (λ r hit h. record {
        owner_active = λ e. cc;
        owner_open = λ s e. cc;
        lease_active = h.lease_active;
        previous_applying = h.previous_applying;
        previous_applicable = h.previous_applicable;
        receipt_applying = h.receipt_applying;
        receipt_fits = h.receipt_fits;
        failures_bounded = h.failures_bounded;
        failures_left = h.failures_left;
      })
      (λ r miss h. record {
        owner_active = h.owner_active;
        owner_open = λ s e.
            Table.exists-delete (is_session s) (is_session c.session) db.sessions
              (λ row mine. ground (
                arith,
                eq_iff row.session_id s,
                eq_iff row.session_id c.session,
                eq_iff s c.session,
              ))
              (h.owner_open s e);
        lease_active = h.lease_active;
        previous_applying = h.previous_applying;
        previous_applicable = h.previous_applicable;
        receipt_applying = h.receipt_applying;
        receipt_fits = h.receipt_fits;
        failures_bounded = h.failures_bounded;
        failures_left = h.failures_left;
      })
      v.rows

closed-Inv :
    (c : Ctx) (db : Db)
    → Inv db
    → Inv (record db {
      sessions = delete_where (is_session c.session) db.sessions;
      items = update_where (λ r. has_text r.owner_session c.session) disowned db.items;
    })
closed-Inv c db v = record {
  rows = disowned-rows c db v;
  single_flight = quiet_flight _ disowned db v (λ r hit h. h);
  item_ids = λ k.
      rw (Table.count-update_same (λ r. r.id == k) _ disowned db.items (λ r _. refl))
        (v.item_ids k);
  item_ids_used = Table.All-update _ _ disowned db.items (λ r _ h. h) v.item_ids_used;
  item_keys = λ key h.
      rw (Table.count-update_same (has_key key h) _ disowned db.items (λ r _. refl))
        (v.item_keys key h);
  receipt_ids = v.receipt_ids;
  receipt_ids_used = v.receipt_ids_used;
  open_receipts = v.open_receipts;
  session_ids = λ s. omega (
    arith,
    Table.count-delete-le (is_session s) (is_session c.session) db.sessions,
    v.session_ids s,
  );
}

pub close_session-Keeps : (c : Ctx) → Keeps none (close_session c)
unfolding close_session
close_session-Keeps c = record { at = λ db v. (closed-Inv c db v.0, tt) }
