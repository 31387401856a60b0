-- ===== src/Store/Behaviour/Abandoned.antt =====
-- A session that dies between `begin_applying` and `create_receipt` leaves an item that another
-- session can put back.
use intern.Prelude.{
  ℕ, String, ◌≤◌, ◌≡◌, refl, ap, ◌∙◌, sym, true, Bool, Option, none, some, arith, Bool-cases, inl,
  inr, ==_iff, eq_iff, if◌then◌else◌,
}
use intern.Prelude.Table.{exists_where}
use intern.Prelude.Table
use intern.Domain.{QueueStatus}
use intern.Domain.Error.{ErrorCode, InternResult, ok, err, invalid_transition}
use intern.Store.Db.{Db, QueueRow, QueueItem, Ctx, lease_deadline}
use intern.Store.Tx.{settle, item_of}
use intern.Store.Session.{is_session, owner_gone}
use intern.Store.Applying.{
  is_applicable, begun, begin_applying, adopted, claim_applying_reconciliation,
}
use intern.Store.Reconcile.{restored, resolve_empty_applying}
use intern.Store.Invariant.Defs.{Inv}
use intern.Store.Invariant.Rules.{touched-Inv, touched_sessions}
use intern.Store.Invariant.Claims.{begin_applying-Keeps}
use intern.Store.Invariant.Applying.{claim_applying_reconciliation-Keeps}
use intern.Store.Behaviour.Spec.{is_start, is_applicable-is_start, owner_gone-is_ownerless}
use intern.Store.Behaviour.Swap.{row_at, swap_spec, row_at-swap}
use intern.Store.Behaviour.Claim.{touched}
use intern.Store.Behaviour.Epoch.{
  may_begin, first_row, begin_applying_lem, is_abandoned, claim_applying_reconciliation_lem,
  is_empty_epoch, resolve_empty_applying_lem,
}

-- The answer is the new row of the item, and the row is in the database; the sessions are those of
-- the heartbeat.
abbrev Done : Ctx → Db → ℕ → QueueRow → Db × InternResult QueueItem → Type 0
Done c db id r out =
    (out.1 ≡ ok (item_of r))
    × (row_at id out.0 ≡ some r)
    × (out.0.sessions ≡ touched_sessions c db.sessions)

swap-Done :
    (c : Ctx) (db : Db) (id : ℕ) (m : Db → QueueRow → Bool) (f : QueueRow → QueueRow) (r : QueueRow)
    → ((x : QueueRow) → (f x).id ≡ x.id)
    → ((x : QueueRow) → (f x).processing_failures ≤ x.processing_failures)
    → Inv db
    → row_at id db ≡ some r
    → m (touched c db) r ≡ true
    → Done c db id (f r) (settle db (swap_spec id m f (touched c db) (row_at id db)))
swap-Done c db id m f r same_id fewer v found e =
    rw (found, e)
      (
        refl,
        row_at-swap id m f same_id fewer (touched c db) (touched-Inv c db v) r found e id
            ∙ rw ((==_iff id id).1 refl),
        refl,
      )

still_open :
    (c : Ctx) (db : Db) (s : String)
    → exists_where (is_session s) db.sessions ≡ true
    → exists_where (is_session s) (touched_sessions c db.sessions) ≡ true
unfolding touched_sessions
still_open c db s there =
    Table.exists-update (is_session s) (is_session c.session) _ db.sessions (λ x _ k. k) there

-- What a successful `begin_applying` found.
begun-facts :
    (c : Ctx) (id : ℕ) (s : QueueStatus) (db : Db) (item : QueueItem)
    → Inv db
    → exists_where (is_session c.session) db.sessions ≡ true
    → (begin_applying c id s db).1 ≡ ok item
    → (r : QueueRow) × (row_at id db ≡ some r)
      × (may_begin id s (touched c db) r ≡ true)
      × (is_start s ≡ true)
begun-facts c id s db item v there answer = elim (Bool-cases (is_start s)) [
  | inr refused ↦ absurd (never (rw refused at spec))
  | inl allowed ↦ found (row_at id db) refl allowed (rw allowed at spec)
]
  where
    spec :
        (if is_start s
          then settle db
              (swap_spec id (may_begin id s) (first_row c s) (touched c db) (row_at id db))
          else (db, err invalid_transition)).1
        ≡ ok item
    spec = ap (λ o. o.1) (sym (begin_applying_lem c id s db v there)) ∙ answer

    never : {e : ErrorCode} → ◌≡◌ {A = InternResult QueueItem} (err e) (ok item) → ⊥
    never h = cc

    found :
        (o : Option QueueRow)
        → row_at id db ≡ o
        → is_start s ≡ true
        → (settle db (swap_spec id (may_begin id s) (first_row c s) (touched c db) o)).1 ≡ ok item
        → (r : QueueRow) × (o ≡ some r)
          × (may_begin id s (touched c db) r ≡ true)
          × (is_start s ≡ true)
    found none e allowed h = absurd (never h)
    found (some r) e allowed h = elim (Bool-cases (may_begin id s (touched c db) r)) [
      | inl may ↦ (r, refl, may, allowed)
      | inr not_may ↦ absurd (never (rw not_may at h))
    ]

ok-injective : {a b : QueueItem} → ◌≡◌ {A = InternResult QueueItem} (ok a) (ok b) → a ≡ b
ok-injective h = cc

is_empty_epoch-adopted :
    (c c' : Ctx) (s : QueueStatus) (r : QueueRow)
    → is_applicable s ≡ true
    → is_empty_epoch c' (adopted c' (begun c s r)) ≡ true
is_empty_epoch-adopted c c' s r allowed = ground (arith, (eq_iff c'.session c'.session).1 refl)

-- Both steps of the other session, from a row that was begun.
put_back :
    (c c' : Ctx) (id : ℕ) (s : QueueStatus) (db : Db) (r : QueueRow)
    → Inv db
    → exists_where (is_session c'.session) db.sessions ≡ true
    → row_at id db ≡ some (begun c s r)
    → is_start s ≡ true
    → owner_gone c' (touched c' db) (some c.session) (some (lease_deadline c)) ≡ true
    → ((claim_applying_reconciliation c' id db).1 ≡ ok (item_of (adopted c' (begun c s r))))
      × ((resolve_empty_applying c' id (claim_applying_reconciliation c' id db).0).1
          ≡ ok (item_of (restored c' (adopted c' (begun c s r)))))
put_back c c' id s db r v there found allowed gone =
    let after = (claim_applying_reconciliation c' id db).0 in
    let (said, found', sessions) : Done c' db id (adopted c' (begun c s r))
        (claim_applying_reconciliation c' id db) =
      rw (claim_applying_reconciliation_lem c' id db v there) (
        swap-Done c' db id (is_abandoned c') (adopted c') (begun c s r) (λ x. refl)
          (λ x. omega arith) v found
          (sym (
              owner_gone-is_ownerless c' (touched c' db) (some c.session) (some (lease_deadline c)))
            ∙ gone)) in
    let open_after : exists_where (is_session c'.session) after.sessions ≡ true =
      rw sessions (still_open c' db c'.session there) in
    let v' : Inv after = ((claim_applying_reconciliation-Keeps c' id).at db (v, tt)).0 in
    let resolved : Done c' after id (restored c' (adopted c' (begun c s r)))
        (resolve_empty_applying c' id after) =
      rw (resolve_empty_applying_lem c' id after v' open_after) (
        swap-Done c' after id (λ _. is_empty_epoch c') (restored c') (adopted c' (begun c s r))
          (λ x. refl) (λ x. omega arith) v' found'
          (is_empty_epoch-adopted c c' s r (is_applicable-is_start s ∙ allowed))) in
    (said, resolved.0)

-- The hand-over of an item whose session was lost before it wrote a receipt, to a session that is
-- open. Where the invariant holds: if `begin_applying` succeeded, and its session is gone for another
-- one after that one's heartbeat, then the other session's `claim_applying_reconciliation` and its
-- `resolve_empty_applying` succeed, and the item is back in the status it was begun from, without an
-- owner.
pub abandoned_epoch_restored :
    (c c' : Ctx) (id : ℕ) (s : QueueStatus) (db : Db) (item : QueueItem)
    → Inv db
    → exists_where (is_session c.session) db.sessions ≡ true
    → exists_where (is_session c'.session) db.sessions ≡ true
    → (begin_applying c id s db).1 ≡ ok item
    → owner_gone c'
        (touched c' (begin_applying c id s db).0)
        item.owner_session
        item.lease_expires_at
      ≡ true
    → (claimed back : QueueItem) × ((claim_applying_reconciliation c' id
          (begin_applying c id s db).0).1
        ≡ ok claimed)
      × ((resolve_empty_applying c' id
            (claim_applying_reconciliation c' id (begin_applying c id s db).0).0).1
          ≡ ok back)
      × (back.status ≡ s)
      × (back.owner_session ≡ none)
abandoned_epoch_restored c c' id s db item v there there' answer gone =
    let after = (begin_applying c id s db).0 in
    let v' : Inv after = ((begin_applying-Keeps c id s).at db (v, tt)).0 in
    let (r, found, may, allowed) = begun-facts c id s db item v there answer in
    let (said, found', sessions) : Done c db id (begun c s r) (begin_applying c id s db) =
      rw (begin_applying_lem c id s db v there, allowed)
        (swap-Done c db id (may_begin id s) (begun c s) r (λ x. refl) (λ x. omega arith) v found
          may) in
    let open_after : exists_where (is_session c'.session) after.sessions ≡ true =
      rw sessions (still_open c db c'.session there') in
    let same : item ≡ item_of (begun c s r) = ok-injective (sym answer ∙ said) in
    let (claimed, resolved) =
      put_back c c' id s after r v' open_after found' allowed (rw same at gone) in
    (
      item_of (adopted c' (begun c s r)),
      item_of (restored c' (adopted c' (begun c s r))),
      claimed,
      resolved,
      refl,
      refl,
    )
