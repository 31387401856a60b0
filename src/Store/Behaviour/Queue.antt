-- ===== src/Store/Behaviour/Queue.antt =====
-- The operations of Store/Queue as functions of the item's row.
use intern.Prelude.{
  ℕ, ◌+◌, fun_ext, ◌≡◌, refl, ap, ◌∙◌, Bool, ◌&&◌, ◌||◌, not, Option, none, some, arith, Bool-cases,
  inl, inr, has_text, if◌then◌else◌,
}
use intern.Domain.{QueueStatus, needs_review, failed, is_status, can_transition_to}
use intern.Domain.Error.{ErrorCode, err, invalid_transition}
use intern.Store.Db.{Db, QueueRow, Ctx}
use intern.Store.Tx.{◌>>◌, guard, transaction, settle}
use intern.Store.Queue.{
  transitioned, transition, cas_status, manual_retry, flagged_duplicate, retry_duplicate,
}
use intern.Store.Invariant.Defs.{Inv}
use intern.Store.Behaviour.Spec.{
  is_worked_on, is_active-is_worked_on, is_copy, flagged-is_copy, as_new,
}
use intern.Store.Behaviour.Swap.{row_at, swap_spec, swap_lem}

abbrev pub holds_for : Ctx → QueueStatus → QueueRow → Bool
holds_for c expected r =
    is_status r.status expected
    && (not (is_worked_on expected) || has_text r.owner_session c.session)

-- Work carries its session and a lease of a minute; everything else has neither.
abbrev pub moved : Ctx → QueueStatus → Option ErrorCode → QueueRow → QueueRow
moved c next error r = record r {
  status = next;
  error_code = error;
  owner_session = if is_worked_on next then some c.session else none;
  lease_expires_at = if is_worked_on next then some (c.now + 60) else none;
  updated_at = c.now;
}

transitioned-moved :
    (c : Ctx) (next : QueueStatus) (error : Option ErrorCode)
    → transitioned c next error ≡ moved c next error
transitioned-moved c next error =
    ap {B = QueueRow → QueueRow}
      (λ (b : Bool) (r : QueueRow). record r {
        status = next;
        error_code = error;
        owner_session = if b then some c.session else none;
        lease_expires_at = if b then some (c.now + 60) else none;
        updated_at = c.now;
      })
      (is_active-is_worked_on next)

settle-swap :
    (id : ℕ) (m : Db → QueueRow → Bool) (f : QueueRow → QueueRow) (db : Db) (o : Option QueueRow)
    → settle db (swap_spec id m f db o) ≡ swap_spec id m f db o
settle-swap id m f db none = refl
settle-swap id m f db (some r) = elim (Bool-cases (m db r)) [ inl e ↦ rw e | inr e ↦ rw e ]

-- Where the invariant holds, `transition` is refused where the table of transitions does not permit
-- it, and in conflict where the item is not there, is in another status, or is being worked on by
-- another session. Otherwise, and only then, the item has the next status and the error given, and
-- it has this session as its owner and a lease of a minute if the next status is one of work in
-- progress, and neither if not; it is returned. An error leaves the database as it was.
pub transition_lem :
    (c : Ctx) (id : ℕ) (expected next : QueueStatus) (error : Option ErrorCode) (db : Db)
    → Inv db
    → transition c id expected next error db ≡ (
        if can_transition_to expected next
        then swap_spec id (λ _. holds_for c expected) (moved c next error) db (row_at id db)
        else (db, err invalid_transition))
unfolding transition guard transaction ◌>>◌
transition_lem c id expected next error db v = elim (Bool-cases (can_transition_to expected next)) [
  | inr refused ↦ rw (refused, guard)
  | inl permitted ↦
      rw (permitted, guard, is_active-is_worked_on expected, transitioned-moved c next error)
        (ap (settle db) (
            swap_lem id (λ _. holds_for c expected) (moved c next error) (λ r. refl)
              (λ r. omega arith) db v)
          ∙ settle-swap id (λ _. holds_for c expected) (moved c next error) db (row_at id db))
]

-- Where the invariant holds, `manual_retry` queues a failed item again, at rest and with its
-- failures forgotten, and returns it; for any other item, and for none, it is a conflict that
-- changes nothing.
pub manual_retry_lem :
    (c : Ctx) (id : ℕ) (db : Db)
    → Inv db
    → manual_retry c id db
      ≡ swap_spec id (λ _ r. is_status r.status failed) (as_new c) db (row_at id db)
unfolding manual_retry cas_status
manual_retry_lem c id db v =
    swap_lem id (λ _ r. is_status r.status failed) (as_new c) (λ r. refl) (λ r. omega arith) db v

-- Where the invariant holds, `retry_duplicate` queues again, at rest and with its failures
-- forgotten, and returns an item that waits for review as a duplicate; for any other item, and for
-- none, it is a conflict that changes nothing.
pub retry_duplicate_lem :
    (c : Ctx) (id : ℕ) (db : Db)
    → Inv db
    → retry_duplicate c id db
      ≡ swap_spec id
          (λ _ r. is_status r.status needs_review && is_copy r.error_code)
          (as_new c)
          db
          (row_at id db)
unfolding retry_duplicate
retry_duplicate_lem c id db v = rw (← fun_ext flagged-is_copy) (
    swap_lem id (λ _ r. is_status r.status needs_review && flagged_duplicate r.error_code)
      (as_new c) (λ r. refl) (λ r. omega arith) db v)
