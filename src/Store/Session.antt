-- ===== src/Store/Session.antt =====
-- store.rs: sessions, their heartbeats, and who may take over an item.
use intern.Prelude.{
  ℕ, ◌+◌, Bool, true, false, not, ◌&&◌, ◌||◌, Option, none, some, String, ◌∷◌, [], ◌++◌, str_eq,
  ltb, leb, ◌==◌, has_text, if◌then◌else◌,
}
use intern.Prelude.Table.{exists_where, update_where, delete_where}
use intern.Domain.Error.{ok, err, state_conflict, database_unavailable}
use intern.Store.Db.{Db, SessionRow, Ctx, lease_seconds}
use intern.Store.Tx.{Tx, ◌>>=◌, guard, update_sessions}

abbrev pub is_session : String → SessionRow → Bool
is_session s row = str_eq row.session_id s

-- `touch_session`
unfoldable pub touch_session : Ctx → Tx (Unit {0})
touch_session c = do
  changed ← update_sessions (is_session c.session) (λ s. record s { heartbeat_at = c.now })
  guard (changed == 1) state_conflict

-- The INSERT of `QueueStore::open`; `session_id` is the table's primary key.
unfoldable pub open_session : Ctx → Tx (Unit {0})
open_session c db =
    if exists_where (is_session c.session) db.sessions then (db, err database_unavailable) else (
      record db {
        sessions = db.sessions ++ record { session_id = c.session; heartbeat_at = c.now } ∷ [];
      },
      ok tt,
    )

-- `Drop for QueueStore`, with ON DELETE SET NULL on `owner_session`
unfoldable pub close_session : Ctx → Tx (Unit {0})
close_session c db = (
  record db {
    sessions = delete_where (is_session c.session) db.sessions;
    items =
        update_where (λ r. has_text r.owner_session c.session)
          (λ r. record r { owner_session = none }) db.items;
  },
  ok tt,
)

-- `lease_expires_at <= now`, false on NULL
abbrev pub lease_expired : Ctx → Option ℕ → Bool
lease_expired c none = false
lease_expired c (some t) = leb t c.now

-- `heartbeat_at > now - LEASE_SECONDS`
abbrev pub is_fresh : Ctx → SessionRow → Bool
is_fresh c s = ltb c.now (s.heartbeat_at + lease_seconds)

-- Whether the session that owned a row is gone: the row has no owner, the owner's session is not
-- there, or the lease has run out and the owner's heartbeat is old.
unfoldable pub owner_gone : Ctx → Db → Option String → Option ℕ → Bool
owner_gone c db none lease = true
owner_gone c db (some s) lease =
    not (exists_where (is_session s) db.sessions)
    || (lease_expired c lease
        && not (exists_where (λ row. is_session s row && is_fresh c row) db.sessions))
