-- ===== src/Store/Behaviour/Spec.antt =====
-- What the statements of store.rs are meant to test and to assign, written out on its own: the times
-- and statuses as literals, and the tests by their cases. The theorems on the operations compare the
-- statements with these.
use intern.Prelude.{
  ℕ, ◌+◌, String, ◌≡◌, refl, ap, fun_ext, Bool, true, false, not, ◌&&◌, ◌||◌, Option, none, some,
  str_eq, ltb, leb, ◌==◌, arith,
}
use intern.Prelude.Table.{exists_where}
use intern.Domain.{
  QueueStatus, queued, extracting, analyzing, ready, needs_review, failed, canceled, applying,
  completed, is_status, is_active,
}
use intern.Domain.Error.{
  ErrorCode, file_changed, source_locked, destination_unavailable, move_verification_failed,
  source_delete_failed, invalid_transition, state_conflict, database_unavailable, io_error,
  invalid_data, model_output_invalid, duplicate, model_declined, uploader_unverified,
  reconciliation_required,
}
use intern.Receipt.{OperationDirection, apply, undo, published, is_stage, is_direction, is_apply}
use intern.Store.Db.{Db, QueueRow, Ctx}
use intern.Store.Session.{owner_gone}
use intern.Store.Queue.{is_processing, flagged_duplicate}
use intern.Store.Applying.{was, is_applicable, other_active}
use intern.Store.Reconcile.{flagged_source_delete, deferred_published}

abbrev pub is_worked_on : QueueStatus → Bool
is_worked_on s = is_status s extracting || (is_status s analyzing || is_status s applying)

pub is_active-is_worked_on : (s : QueueStatus) → is_active s ≡ is_worked_on s
is_active-is_worked_on queued = refl
is_active-is_worked_on extracting = refl
is_active-is_worked_on analyzing = refl
is_active-is_worked_on ready = refl
is_active-is_worked_on needs_review = refl
is_active-is_worked_on failed = refl
is_active-is_worked_on canceled = refl
is_active-is_worked_on applying = refl
is_active-is_worked_on completed = refl

abbrev pub is_being_read : QueueStatus → Bool
is_being_read s = is_status s extracting || is_status s analyzing

pub is_processing-is_being_read : (s : QueueStatus) → is_processing s ≡ is_being_read s
is_processing-is_being_read queued = refl
is_processing-is_being_read extracting = refl
is_processing-is_being_read analyzing = refl
is_processing-is_being_read ready = refl
is_processing-is_being_read needs_review = refl
is_processing-is_being_read failed = refl
is_processing-is_being_read canceled = refl
is_processing-is_being_read applying = refl
is_processing-is_being_read completed = refl

abbrev pub is_start : QueueStatus → Bool
is_start s = is_status s ready || is_status s completed

pub is_applicable-is_start : (s : QueueStatus) → is_applicable s ≡ is_start s
is_applicable-is_start queued = refl
is_applicable-is_start extracting = refl
is_applicable-is_start analyzing = refl
is_applicable-is_start ready = refl
is_applicable-is_start needs_review = refl
is_applicable-is_start failed = refl
is_applicable-is_start canceled = refl
is_applicable-is_start applying = refl
is_applicable-is_start completed = refl

abbrev pub another_worked_on : ℕ → Db → Bool
another_worked_on id db = exists_where (λ s. not (s.id == id) && is_worked_on s.status) db.items

pub other_active-another_worked_on :
    (id : ℕ) (db : Db) → exists_where (other_active id) db.items ≡ another_worked_on id db
other_active-another_worked_on id db =
    ap (λ (act : QueueStatus → Bool). exists_where (λ s. not (s.id == id) && act s.status) db.items)
      (fun_ext is_active-is_worked_on)

abbrev pub came_from : QueueStatus → Option QueueStatus → Bool
came_from s none = false
came_from s (some t) = is_status t s

pub was-came_from : (o : Option QueueStatus) (s : QueueStatus) → was o s ≡ came_from s o
was-came_from none s = refl
was-came_from (some t) s = refl

-- No owner; or the owner's session is closed; or a lease is due and the session has no heartbeat
-- later than a minute ago.
abbrev pub is_ownerless : Ctx → Db → Option String → Option ℕ → Bool
is_ownerless c db none lease = true
is_ownerless c db (some s) none = not (exists_where (λ row. str_eq row.session_id s) db.sessions)
is_ownerless c db (some s) (some due) =
    not (exists_where (λ row. str_eq row.session_id s) db.sessions)
    || (leb due c.now
        && not (
            exists_where (λ row. str_eq row.session_id s && ltb c.now (row.heartbeat_at + 60))
              db.sessions))

pub owner_gone-is_ownerless :
    (c : Ctx) (db : Db) (owner : Option String) (lease : Option ℕ)
    → owner_gone c db owner lease ≡ is_ownerless c db owner lease
unfolding owner_gone
owner_gone-is_ownerless c db none lease = refl
owner_gone-is_ownerless c db (some s) none = ground arith
owner_gone-is_ownerless c db (some s) (some due) = refl

abbrev pub is_undeleted : Option ErrorCode → Bool
is_undeleted none = false
is_undeleted (some source_delete_failed) = true
is_undeleted (some _) = false

pub flagged-is_undeleted : (e : Option ErrorCode) → flagged_source_delete e ≡ is_undeleted e
flagged-is_undeleted none = refl
flagged-is_undeleted (some file_changed) = refl
flagged-is_undeleted (some source_locked) = refl
flagged-is_undeleted (some destination_unavailable) = refl
flagged-is_undeleted (some move_verification_failed) = refl
flagged-is_undeleted (some source_delete_failed) = refl
flagged-is_undeleted (some invalid_transition) = refl
flagged-is_undeleted (some state_conflict) = refl
flagged-is_undeleted (some database_unavailable) = refl
flagged-is_undeleted (some io_error) = refl
flagged-is_undeleted (some invalid_data) = refl
flagged-is_undeleted (some model_output_invalid) = refl
flagged-is_undeleted (some duplicate) = refl
flagged-is_undeleted (some model_declined) = refl
flagged-is_undeleted (some uploader_unverified) = refl
flagged-is_undeleted (some reconciliation_required) = refl

abbrev pub is_copy : Option ErrorCode → Bool
is_copy none = false
is_copy (some duplicate) = true
is_copy (some _) = false

pub flagged-is_copy : (e : Option ErrorCode) → flagged_duplicate e ≡ is_copy e
flagged-is_copy none = refl
flagged-is_copy (some file_changed) = refl
flagged-is_copy (some source_locked) = refl
flagged-is_copy (some destination_unavailable) = refl
flagged-is_copy (some move_verification_failed) = refl
flagged-is_copy (some source_delete_failed) = refl
flagged-is_copy (some invalid_transition) = refl
flagged-is_copy (some state_conflict) = refl
flagged-is_copy (some database_unavailable) = refl
flagged-is_copy (some io_error) = refl
flagged-is_copy (some invalid_data) = refl
flagged-is_copy (some model_output_invalid) = refl
flagged-is_copy (some duplicate) = refl
flagged-is_copy (some model_declined) = refl
flagged-is_copy (some uploader_unverified) = refl
flagged-is_copy (some reconciliation_required) = refl

pub is_apply-is_direction : (d : OperationDirection) → is_apply d ≡ is_direction d apply
is_apply-is_direction apply = refl
is_apply-is_direction undo = refl

-- the receipt that was put off is a published apply of the item
abbrev pub is_published_apply : Db → ℕ → Option ℕ → Bool
is_published_apply db id none = false
is_published_apply db id (some receipt_id) =
    exists_where
      (λ rc.
        (rc.id == receipt_id && (rc.queue_item_id == id && is_stage rc.stage published))
        && is_direction rc.direction apply)
      db.receipts

pub deferred-is_published_apply :
    (db : Db) (id : ℕ) (o : Option ℕ) → deferred_published db id o ≡ is_published_apply db id o
deferred-is_published_apply db id none = refl
deferred-is_published_apply db id (some receipt_id) =
    ap
      (λ (test : OperationDirection → Bool).
        exists_where
          (λ rc.
            (rc.id == receipt_id && (rc.queue_item_id == id && is_stage rc.stage published))
            && test rc.direction)
          db.receipts)
      (fun_ext is_apply-is_direction)

-- out of every operation: no session, lease, error or receipt, and no status to go back to
abbrev pub at_rest : Ctx → QueueStatus → QueueRow → QueueRow
at_rest c status r = record r {
  status = status;
  error_code = none;
  owner_session = none;
  lease_expires_at = none;
  previous_status = none;
  active_receipt_id = none;
  reconciliation_receipt_id = none;
  updated_at = c.now;
}

-- at rest in the queue, with no failure
abbrev pub as_new : Ctx → QueueRow → QueueRow
as_new c r = record (at_rest c queued r) { processing_failures = 0 }
