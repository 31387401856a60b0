-- ===== src/Store/Behaviour/Epoch.antt =====
-- The operations of Store/Applying and Store/Reconcile that change one item, as functions of its
-- row: a heartbeat, and then a test and an assignment.
use intern.Prelude.{
  ℕ, ◌+◌, none, some, ◌≤◌, ◌≡◌, refl, ap, ◌∙◌, fun_ext, Bool, true, ◌&&◌, not, arith, Bool-cases,
  inl, inr, ◌==◌, has_num, has_text, is_some, if◌then◌else◌,
}
use intern.Prelude.Table.{exists_where}
use intern.Domain.{QueueStatus, ready, completed, needs_review, applying, is_status}
use intern.Domain.Error.{err, invalid_transition}
use intern.Receipt.{OperationDirection, apply, undo, complete, is_stage, is_direction}
use intern.Store.Db.{Db, QueueRow, Ctx}
use intern.Store.Tx.{◌>>◌, guard, transaction, settle, cas_items, query_one}
use intern.Store.Session.{is_session, touch_session}
use intern.Store.Applying.{
  was_applicable, begin_applying, finish_applying, complete_apply, complete_undo,
  claim_applying_reconciliation,
}
use intern.Store.Reconcile.{claim_deferred_reconciliation, restored, resolve_empty_applying}
use intern.Store.Invariant.Defs.{Inv}
use intern.Store.Invariant.Rules.{touched-Inv}
use intern.Store.Behaviour.Spec.{
  is_start, is_applicable-is_start, another_worked_on, other_active-another_worked_on, came_from,
  was-came_from, is_ownerless, owner_gone-is_ownerless, is_undeleted, flagged-is_undeleted,
  is_published_apply, deferred-is_published_apply, at_rest,
}
use intern.Store.Behaviour.Swap.{row_at, swap_spec, swap_lem}
use intern.Store.Behaviour.Claim.{touched, touch_open}

-- Where the session is open: the swap happens after the heartbeat, and both or neither.
touched_swap :
    (c : Ctx) (id : ℕ) (p : Db → QueueRow → Bool) (m : Db → QueueRow → Bool)
    (f : QueueRow → QueueRow) (db : Db)
    → ((x : Db) (r : QueueRow) → p x r ≡ (r.id == id && m x r))
    → ((r : QueueRow) → (f r).id ≡ r.id)
    → ((r : QueueRow) → (f r).processing_failures ≤ r.processing_failures)
    → Inv db
    → exists_where (is_session c.session) db.sessions ≡ true
    → transaction (touch_session c >> (cas_items p f >> query_one (λ r. r.id == id))) db
      ≡ settle db (swap_spec id m f (touched c db) (row_at id db))
unfolding transaction ◌>>◌
touched_swap c id p m f db split same_id fewer v there = rw (touch_open c db v there) (
    ap (λ q. settle db ((cas_items q f >> query_one (λ r. r.id == id)) (touched c db)))
      (fun_ext (λ x. fun_ext (split x)))
    ∙ ap (settle db) (swap_lem id m f same_id fewer (touched c db) (touched-Inv c db v)))

abbrev pub may_begin : ℕ → QueueStatus → Db → QueueRow → Bool
may_begin id expected db r =
    is_status r.status expected
    && (not (is_some r.active_receipt_id) && not (another_worked_on id db))

abbrev pub first_row : Ctx → QueueStatus → QueueRow → QueueRow
first_row c expected r = record r {
  status = applying;
  previous_status = some expected;
  owner_session = some c.session;
  lease_expires_at = some (c.now + 60);
  active_receipt_id = none;
  reconciliation_receipt_id = none;
  applying_epoch = r.applying_epoch + 1;
  error_code = none;
  updated_at = c.now;
}

-- Where the invariant holds and the session is open, `begin_applying` from a status other than
-- `ready` and `completed` is refused. From these two it gives the item to this session as
-- `applying`, with the status it came from, a lease of a minute, a new epoch, no error and no
-- receipt, if the item is in that status, has no receipt, and no other item is being worked on; the
-- session's heartbeat is written with it. Otherwise it is a conflict, and nothing is written.
pub begin_applying_lem :
    (c : Ctx) (id : ℕ) (expected : QueueStatus) (db : Db)
    → Inv db
    → exists_where (is_session c.session) db.sessions ≡ true
    → begin_applying c id expected db ≡ (
        if is_start expected
        then settle db (
            swap_spec id
              (may_begin id expected)
              (first_row c expected)
              (touched c db)
              (row_at id db))
        else (db, err invalid_transition))
unfolding begin_applying guard ◌>>◌
begin_applying_lem c id expected db v there = elim (Bool-cases (is_start expected)) [
  | inr refused ↦ rw (refused, is_applicable-is_start expected ∙ refused, guard)
  | inl permitted ↦
      rw (permitted, is_applicable-is_start expected ∙ permitted, guard)
        (touched_swap c id _ (may_begin id expected) (first_row c expected) db
          (λ x r. rw (other_active-another_worked_on id x) refl) (λ r. refl) (λ r. omega arith) v
          there)
]

abbrev pub may_finish : Ctx → ℕ → ℕ → QueueStatus → OperationDirection → Db → QueueRow → Bool
may_finish c id receipt_id required_previous direction db r =
    is_status r.status applying
    && (has_text r.owner_session c.session
        && (came_from required_previous r.previous_status
            && (has_num r.active_receipt_id receipt_id
                && exists_where
                    (λ rc.
                      (rc.id == receipt_id
                        && (rc.queue_item_id == id && is_stage rc.stage complete))
                      && is_direction rc.direction direction)
                    db.receipts)))

-- Where the invariant holds and the session is open, `complete_apply` takes an item from `applying`
-- to `completed`, and `complete_undo` to `ready`, with the heartbeat, and releases it from its
-- session, its lease, its error and its receipts. They do so exactly if this session is applying
-- the item, it came from `ready` or `completed` respectively, and its receipt is the one given, is
-- the item's, is complete and has the direction of the operation. Otherwise they are a conflict
-- that writes nothing.
pub complete_lem :
    (c : Ctx) (id receipt_id : ℕ) (db : Db)
    → Inv db
    → exists_where (is_session c.session) db.sessions ≡ true
    → (complete_apply c id receipt_id db
        ≡ settle db (
            swap_spec id
              (may_finish c id receipt_id ready apply)
              (at_rest c completed)
              (touched c db)
              (row_at id db)))
      × (complete_undo c id receipt_id db
          ≡ settle db (
              swap_spec id
                (may_finish c id receipt_id completed undo)
                (at_rest c ready)
                (touched c db)
                (row_at id db)))
unfolding complete_apply complete_undo finish_applying
complete_lem c id receipt_id db v there = (
  touched_swap c id _ (may_finish c id receipt_id ready apply) (at_rest c completed) db
      (λ x r. rw (was-came_from r.previous_status ready) (ground arith)) (λ r. refl)
      (λ r. omega arith) v there,
  touched_swap c id _ (may_finish c id receipt_id completed undo) (at_rest c ready) db
      (λ x r. rw (was-came_from r.previous_status completed) (ground arith)) (λ r. refl)
      (λ r. omega arith) v there,
)

abbrev pub is_abandoned : Ctx → Db → QueueRow → Bool
is_abandoned c db r =
    is_status r.status applying && is_ownerless c db r.owner_session r.lease_expires_at

abbrev pub handed_over : Ctx → QueueRow → QueueRow
handed_over c r = record r {
  owner_session = some c.session;
  lease_expires_at = some (c.now + 60);
  updated_at = c.now;
}

-- Where the invariant holds and the session is open, `claim_applying_reconciliation` gives an item
-- that is being applied to this session, with a new lease of a minute and nothing else changed
-- but the time of the update, exactly if its
-- owner is gone once this session's heartbeat is written; otherwise it is a conflict that writes
-- nothing.
pub claim_applying_reconciliation_lem :
    (c : Ctx) (id : ℕ) (db : Db)
    → Inv db
    → exists_where (is_session c.session) db.sessions ≡ true
    → claim_applying_reconciliation c id db
      ≡ settle db (swap_spec id (is_abandoned c) (handed_over c) (touched c db) (row_at id db))
unfolding claim_applying_reconciliation
claim_applying_reconciliation_lem c id db v there =
    touched_swap c id _ (is_abandoned c) (handed_over c) db
      (λ x r. rw (owner_gone-is_ownerless c x r.owner_session r.lease_expires_at) refl) (λ r. refl)
      (λ r. omega arith) v there

abbrev pub is_empty_epoch : Ctx → QueueRow → Bool
is_empty_epoch c r =
    is_status r.status applying
    && (has_text r.owner_session c.session
        && (not (is_some r.active_receipt_id)
            && (not (r.applying_epoch == 0) && was_applicable r.previous_status)))

pub resolve_empty_applying_lem :
    (c : Ctx) (id : ℕ) (db : Db)
    → Inv db
    → exists_where (is_session c.session) db.sessions ≡ true
    → resolve_empty_applying c id db
      ≡ settle db (swap_spec id (λ _. is_empty_epoch c) (restored c) (touched c db) (row_at id db))
unfolding resolve_empty_applying
resolve_empty_applying_lem c id db v there =
    touched_swap c id _ (λ _. is_empty_epoch c) (restored c) db (λ x r. ground arith) (λ r. refl)
      (λ r. omega arith) v there

abbrev pub may_reclaim : ℕ → Db → QueueRow → Bool
may_reclaim id db r =
    is_status r.status needs_review
    && (is_undeleted r.error_code
        && (not (is_some r.active_receipt_id)
            && (is_published_apply db r.id r.reconciliation_receipt_id
                && not (another_worked_on id db))))

abbrev pub taken_up : Ctx → QueueRow → QueueRow
taken_up c r = record r {
  status = applying;
  previous_status = some ready;
  owner_session = some c.session;
  lease_expires_at = some (c.now + 60);
  active_receipt_id = r.reconciliation_receipt_id;
  updated_at = c.now;
}

-- Where the invariant holds and the session is open, `claim_deferred_reconciliation` takes up an
-- operation that was put off: the item goes from `needs_review` to `applying` under this session,
-- bound to the receipt that was put off. It does so exactly if the item was put off because its
-- source could not be deleted, has no receipt, the receipt put off is a published apply of this
-- item, and no other item is being worked on; otherwise it is a conflict that writes nothing.
pub claim_deferred_reconciliation_lem :
    (c : Ctx) (id : ℕ) (db : Db)
    → Inv db
    → exists_where (is_session c.session) db.sessions ≡ true
    → claim_deferred_reconciliation c id db
      ≡ settle db (swap_spec id (may_reclaim id) (taken_up c) (touched c db) (row_at id db))
unfolding claim_deferred_reconciliation
claim_deferred_reconciliation_lem c id db v there =
    touched_swap c id _ (may_reclaim id) (taken_up c) db
      (λ x r.
        rw
          (
            flagged-is_undeleted r.error_code,
            deferred-is_published_apply x r.id r.reconciliation_receipt_id,
            other_active-another_worked_on id x,
          )
          refl)
      (λ r. refl) (λ r. omega arith) v there
