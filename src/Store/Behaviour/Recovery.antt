-- ===== src/Store/Behaviour/Recovery.antt =====
-- Work whose owner is gone is taken back, and only such work.
use intern.Prelude.{
  ℕ, String, sym, ◌≡◌, refl, ap, ◌∙◌, true, false, ◌&&◌, ◌⊎◌, All-of_everywhere, Option, none, some,
  arith, Bool-cases, inl, inr, ◌==◌, if◌then◌else◌, All,
}
use intern.Prelude.Table.{exists_where, update_where, find_where, count_where}
use intern.Prelude.Table
use intern.Domain.{queued}
use intern.Store.Db.{Db, QueueRow, Ctx}
use intern.Store.Tx.{update_items}
use intern.Store.Session.{is_session, is_fresh, lease_expired, owner_gone}
use intern.Store.Queue.{is_processing, interrupted, recover_interrupted}
use intern.Store.Behaviour.Spec.{
  is_being_read, is_processing-is_being_read, is_ownerless, owner_gone-is_ownerless,
}
use intern.Store.Behaviour.Swap.{row_at}

-- An owner is alive if its session is open and has a heartbeat of the last minute.
abbrev pub IsAlive : Ctx → Db → String → Type 0
IsAlive c db s = exists_where (λ row. is_session s row && is_fresh c row) db.sessions ≡ true

alive-not_gone :
    (c : Ctx) (db : Db) (s : String) (lease : Option ℕ)
    → IsAlive c db s
    → owner_gone c db (some s) lease ≡ false
unfolding owner_gone
alive-not_gone c db s lease alive =
    let there : exists_where (is_session s) db.sessions ≡ true =
      Table.exists-le (is_session s) (λ row. is_session s row && is_fresh c row) db.sessions
        (λ row h. ground arith) alive in
    ground (arith, there, alive)

-- `recover_interrupted` queues an item again exactly if it was being extracted or analysed and its
-- owner is gone, and touches no other item; it sets the status, forgets the owner and the lease,
-- and keeps everything else but the time of the update.
pub recover_interrupted_lem :
    (c : Ctx) (db : Db) (id : ℕ)
    → row_at id (recover_interrupted c db).0 ≡ elim (row_at id db) [
      | none ↦ none
      | some r ↦ some (
          if is_being_read r.status && is_ownerless c db r.owner_session r.lease_expires_at
          then record r {
            status = queued;
            owner_session = none;
            lease_expires_at = none;
            updated_at = c.now;
          }
          else r)
    ]
unfolding recover_interrupted update_items
recover_interrupted_lem c db id =
    Table.find-update
      (λ r. is_processing r.status && owner_gone c db r.owner_session r.lease_expires_at)
      (interrupted c) (λ r. r.id == id) db.items (λ r. refl)
    ∙ reworded (row_at id db)
  where
    reworded :
        (o : Option QueueRow)
        → ◌≡◌ {A = Option QueueRow}
            (elim o as (λ _. Option QueueRow) [
              | none ↦ none
              | some r ↦ some (
                  if is_processing r.status && owner_gone c db r.owner_session r.lease_expires_at
                  then interrupted c r
                  else r)
            ])
            (elim o as (λ _. Option QueueRow) [
              | none ↦ none
              | some r ↦ some (
                  if is_being_read r.status && is_ownerless c db r.owner_session r.lease_expires_at
                  then record r {
                    status = queued;
                    owner_session = none;
                    lease_expires_at = none;
                    updated_at = c.now;
                  }
                  else r)
            ])
    reworded none = refl
    reworded (some r) =
        rw
          (
            is_processing-is_being_read r.status,
            owner_gone-is_ownerless c db r.owner_session r.lease_expires_at,
          )
          refl

-- The owner of a row, if it is not gone: a session that is open, and has a heartbeat of the last
-- minute or a lease that has not run out.
abbrev pub HasOwner : Ctx → Db → Option String → Option ℕ → Type 0
HasOwner c db owner lease =
    (s : String) × (owner ≡ some s)
    × (exists_where (is_session s) db.sessions ≡ true)
    × ((exists_where (λ row. is_session s row && is_fresh c row) db.sessions ≡ true)
        ⊎ (lease_expired c lease ≡ false))

not_gone-HasOwner :
    (c : Ctx) (db : Db) (owner : Option String) (lease : Option ℕ)
    → owner_gone c db owner lease ≡ false
    → HasOwner c db owner lease
unfolding owner_gone
not_gone-HasOwner c db none lease h = absurd (cc)
not_gone-HasOwner c db (some s) lease h = elim (Bool-cases (lease_expired c lease)) [
  | inl expired ↦ (s, refl, ground arith, inl (ground arith))
  | inr running ↦ (s, refl, ground arith, inr running)
]

-- After recovery, every item that is being extracted or analysed has an owner whose session is open,
-- and who has a heartbeat of the last minute or whose lease has not run out.
pub recover_interrupted_settles :
    (c : Ctx) (db : Db)
    → All
        (λ r. is_processing r.status ≡ true → HasOwner c db r.owner_session r.lease_expires_at)
        (recover_interrupted c db).0.items
unfolding recover_interrupted update_items
recover_interrupted_settles c db =
    Table.All-update_to (λ _. Unit {0}) _
      (λ r. is_processing r.status && owner_gone c db r.owner_session r.lease_expires_at)
      (interrupted c) db.items (λ r hit _ working. absurd (cc))
      (λ r miss _ working. not_gone-HasOwner c db r.owner_session r.lease_expires_at (ground arith))
      (All-of_everywhere _ db.items (λ r. tt))

-- The row of an item whose owner is an open session with a heartbeat of the last minute is the same
-- after a recovery.
pub alive_keeps_work :
    (c : Ctx) (db : Db) (id : ℕ) (r : QueueRow) (s : String)
    → row_at id db ≡ some r
    → r.owner_session ≡ some s
    → IsAlive c db s
    → row_at id (recover_interrupted c db).0 ≡ some r
alive_keeps_work c db id r s found owned alive =
    recover_interrupted_lem c db id ∙ rw (found, gone) (ground arith)
  where
    gone : is_ownerless c db r.owner_session r.lease_expires_at ≡ false
    gone =
        sym (owner_gone-is_ownerless c db r.owner_session r.lease_expires_at)
        ∙ ap (λ o. owner_gone c db o r.lease_expires_at) owned
        ∙ alive-not_gone c db s r.lease_expires_at alive
