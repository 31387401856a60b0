-- ===== src/Tests/Store.antt =====
-- The queue database at concrete inputs: two sessions, and a few documents.
use intern.Prelude.{
  ℕ, ◌≤◌, Text, ◌≡◌, refl, true, false, ◌&&◌, none, some, [], ◌∷◌, All, ◌==◌, if◌then◌else◌,
  text_eq,
}
use mathlib.Core.Option
use intern.Prelude.Table.{count_where, exists_where, update_where, find_where, select_first}
use intern.Domain.{
  queued, extracting, analyzing, needs_review, failed, is_status, can_transition_to,
}
use intern.Domain.Error.{invalid_data, duplicate, ok, err, state_conflict, invalid_transition}
use intern.Store.Db.{Db, QueueRow, QueueItem, Ctx, new_db}
use intern.Store.Tx.{
  ◌>>=◌, ◌>>◌, pure, guard, require, read, transaction, transaction_ending, update_items,
  update_sessions, cas_items, row_to_item, query_one,
}
use intern.Store.Session.{is_session, touch_session, open_session, owner_gone}
use intern.Store.Queue.{
  windows_path_key, insert_item, enqueue, active_row, next_queued, finish_claim, claim_row,
  claim_next, transition, recover_interrupted, is_processing, record_processing_failure, cas_status,
  manual_retry, retry_duplicate,
}
use intern.Store.Runs.{Op, perform, run, Reach, start, step}
use intern.Store.Invariant.Defs.{Inv}
use intern.Store.Invariant.Reachable.{Reach-Inv}
use intern.Store.Behaviour.Swap.{row_at, swap_spec}
use intern.Store.Behaviour.Spec.{is_being_read, is_ownerless, is_copy, as_new}
use intern.Store.Behaviour.Queue.{
  moved, holds_for, transition_lem, manual_retry_lem, retry_duplicate_lem,
}
use intern.Store.Behaviour.Claim.{claim_next-first, claim_next_progress}
use intern.Store.Behaviour.Atomic.{perform_error_unchanged}
use intern.Store.Behaviour.Recovery.{
  recover_interrupted_lem, HasOwner, recover_interrupted_settles, alive_keeps_work,
}

abbrev pub anna : Ctx
anna = record { session = "anna"; now = 100; to_lowercase = λ t. t; to_string_lossy = λ t. t }

abbrev pub later : ℕ → Ctx
later t = record anna { now = t }

abbrev pub scan : Text
scan = b'a' ∷ b'/' ∷ b'b' ∷ []

abbrev pub memo : Text
memo = b'm' ∷ []

-- one session, and two waiting documents
abbrev pub waiting : Db
waiting =
    run anna (Op.enqueue memo "m1")
      (run anna (Op.enqueue scan "s1") (run anna Op.open_session new_db))

pub waiting-Reach : Reach waiting
waiting-Reach =
    step (step (step start anna Op.open_session) anna (Op.enqueue scan "s1")) anna
      (Op.enqueue memo "m1")

pub waiting-Inv : Inv waiting
waiting-Inv = Reach-Inv waiting-Reach

Reach-Inv_example : Inv waiting
Reach-Inv_example = Reach-Inv waiting-Reach

-- what a run of an operation computes through
unfoldable pub machinery : Unit {0}
unfolding run open_session enqueue insert_item transaction transaction_ending query_one read require
    row_to_item windows_path_key new_db text_eq exists_where find_where count_where update_where
    select_first touch_session update_sessions update_items cas_items guard pure claim_next
    next_queued claim_row finish_claim transition manual_retry recover_interrupted owner_gone
    can_transition_to ◌>>=◌ ◌>>◌
machinery = tt

pub waiting_session : exists_where (is_session "anna") waiting.sessions ≡ true
unfolding machinery
waiting_session = refl

-- The first document that was added is claimed first.
first_claimed :
    (run anna Op.claim_next waiting).items
    ≡ update_where
        (λ r. r.id == 1)
        (λ r. record r {
          status = extracting;
          owner_session = some "anna";
          lease_expires_at = some 160;
        })
        waiting.items
unfolding machinery
first_claimed = refl

-- the first document is being extracted
abbrev pub busy : Db
busy = run anna Op.claim_next waiting

pub busy-Inv : Inv busy
busy-Inv = Reach-Inv (step waiting-Reach anna Op.claim_next)

transition_lem_example : transition anna 1 extracting analyzing none busy ≡ (
    if can_transition_to extracting analyzing
    then swap_spec 1
        (λ _. holds_for anna extracting)
        (moved anna analyzing none)
        busy
        (row_at 1 busy)
    else (busy, err invalid_transition))
transition_lem_example = transition_lem anna 1 extracting analyzing none busy busy-Inv

-- Another session's transition is refused.
stranger_refused :
    (perform (record anna { session = "bert" }) (Op.transition 1 extracting analyzing none) busy).1
    ≡ some state_conflict
unfolding machinery
stranger_refused = refl

abbrev claimed_item : QueueItem
claimed_item = record {
  id = 1;
  source_path = scan;
  source_hash = "s1";
  status = extracting;
  processing_failures = 0;
  error_code = none;
  owner_session = some "anna";
  lease_expires_at = some 160;
  previous_status = none;
  active_receipt_id = none;
  reconciliation_receipt_id = none;
  created_at = 100;
  updated_at = 100;
}

claim_next-first_example :
    (claimed_item.status ≡ extracting)
    × (claimed_item.owner_session ≡ some "anna")
    × ((r : QueueRow) × (row_at 1 waiting ≡ some r) × (r.status ≡ queued))
    × All (λ s. is_status s.status queued ≡ true → 1 ≤ s.id) waiting.items
    × (exists_where active_row waiting.items ≡ false)
unfolding machinery
claim_next-first_example =
    claim_next-first anna waiting claimed_item waiting-Inv waiting_session refl

claim_next_progress_example : (item : QueueItem) × ((claim_next anna waiting).1 ≡ ok (some item))
unfolding machinery
claim_next_progress_example = claim_next_progress anna waiting waiting-Inv waiting_session refl refl

perform_error_unchanged_example :
    (perform (record anna { session = "bert" }) (Op.transition 1 extracting analyzing none) busy).0
    ≡ busy
perform_error_unchanged_example =
    perform_error_unchanged (record anna { session = "bert" })
      (Op.transition 1 extracting analyzing none) busy state_conflict busy-Inv refl stranger_refused

-- Three minutes later the owner has sent no heartbeat, and its lease has run out.
recover_interrupted_lem_example :
    row_at 1 (recover_interrupted (later 280) busy).0 ≡ elim (row_at 1 busy) [
      | none ↦ none
      | some r ↦ some (
          if is_being_read r.status
            && is_ownerless (later 280) busy r.owner_session r.lease_expires_at
          then record r {
            status = queued;
            owner_session = none;
            lease_expires_at = none;
            updated_at = 280;
          }
          else r)
    ]
recover_interrupted_lem_example = recover_interrupted_lem (later 280) busy 1

requeued_after_silence :
    Option.map (λ (r : QueueRow). r.status) (row_at 1 (run (later 280) Op.recover_interrupted busy))
    ≡ some queued
unfolding machinery
requeued_after_silence = refl

recover_interrupted_settles_example :
    All
      (λ r.
        is_processing r.status ≡ true
        → HasOwner (later 280) busy r.owner_session r.lease_expires_at)
      (recover_interrupted (later 280) busy).0.items
recover_interrupted_settles_example = recover_interrupted_settles (later 280) busy

abbrev claimed_row : QueueRow
claimed_row = record {
  id = 1;
  source_path = scan;
  source_path_key = b'a' ∷ 92 ∷ b'b' ∷ [];
  source_hash = "s1";
  status = extracting;
  processing_failures = 0;
  error_code = none;
  owner_session = some "anna";
  lease_expires_at = some 160;
  previous_status = none;
  active_receipt_id = none;
  reconciliation_receipt_id = none;
  applying_epoch = 0;
  created_at = 100;
  updated_at = 100;
}

alive_keeps_work_example : row_at 1 (recover_interrupted (later 130) busy).0 ≡ some claimed_row
unfolding machinery
alive_keeps_work_example = alive_keeps_work (later 130) busy 1 claimed_row "anna" refl refl refl

-- the first document failed twice
abbrev failed_db : Db
failed_db =
    run anna (Op.record_processing_failure 1 invalid_data)
      (run anna Op.claim_next (run anna (Op.record_processing_failure 1 invalid_data) busy))

failed_db-Inv : Inv failed_db
failed_db-Inv = Reach-Inv (
    step
      (step
        (step (step waiting-Reach anna Op.claim_next) anna
          (Op.record_processing_failure 1 invalid_data))
        anna Op.claim_next)
      anna (Op.record_processing_failure 1 invalid_data))

has_failed : Option.map (λ (r : QueueRow). r.status) (row_at 1 failed_db) ≡ some failed
unfolding machinery record_processing_failure
has_failed = refl

retried :
    Option.map
      (λ (r : QueueRow). r.processing_failures)
      (row_at 1 (run anna (Op.manual_retry 1) failed_db))
    ≡ some 0
unfolding machinery record_processing_failure cas_status
retried = refl

manual_retry_lem_example :
    manual_retry anna 1 failed_db
    ≡ swap_spec 1 (λ _ r. is_status r.status failed) (as_new anna) failed_db (row_at 1 failed_db)
manual_retry_lem_example = manual_retry_lem anna 1 failed_db failed_db-Inv

-- the first document waits as a duplicate
abbrev duplicate_db : Db
duplicate_db = run anna (Op.transition 1 queued needs_review (some duplicate)) waiting

duplicate_db-Inv : Inv duplicate_db
duplicate_db-Inv =
    Reach-Inv (step waiting-Reach anna (Op.transition 1 queued needs_review (some duplicate)))

processed_again :
    Option.map
      (λ (r : QueueRow). r.status)
      (row_at 1 (run anna (Op.retry_duplicate 1) duplicate_db))
    ≡ some queued
unfolding machinery retry_duplicate
processed_again = refl

retry_duplicate_lem_example :
    retry_duplicate anna 1 duplicate_db
    ≡ swap_spec 1
        (λ _ r. is_status r.status needs_review && is_copy r.error_code)
        (as_new anna)
        duplicate_db
        (row_at 1 duplicate_db)
retry_duplicate_lem_example = retry_duplicate_lem anna 1 duplicate_db duplicate_db-Inv
