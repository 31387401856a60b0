-- ===== src/Store/Invariant/Queue.antt =====
-- The operations of Store/Queue keep the invariant.
use intern.Prelude.{
  ℕ, String, ◌≡◌, refl, ap, ◌∙◌, Bool, true, false, ◌&&◌, ◌||◌, not, Option, none, some, arith, inl,
  inr, ◌==◌, ◌⊎◌, has_text, has_text-eq, &&-eq-true, if◌then◌else◌,
}
use intern.Domain.{
  QueueStatus, queued, failed, completed, applying, needs_review, is_status, is_active,
  can_transition_to, can_transition_to_bounds, is_status_iff,
}
use intern.Domain.Error.{ErrorCode}
use intern.Store.Db.{Db, QueueRow, Ctx}
use intern.Store.Session.{owner_gone}
use intern.Store.Queue.{
  active_row, renewed, renew_lease, transitioned, transition, released, requeued, cas_status,
  manual_retry, flagged_duplicate, retry_duplicate, complete_keep_original, is_processing,
  interrupted, recover_interrupted,
}
use intern.Store.Invariant.Defs.{Keeps, RowOk}
use intern.Store.Invariant.Rules.{
  Safe, quiet_flight, Keeps-update_items, Keeps-touch, Keeps-guarded, Keeps-transaction, Keeps-swap,
}

renewed-Safe :
    (o : Option String) (c : Ctx) (id : ℕ)
    → Safe o (λ _ r. r.id == id && (has_text r.owner_session c.session && active_row r)) (renewed c)
renewed-Safe o c id = record {
  same_id = λ r. refl;
  same_key = λ r. refl;
  same_hash = λ r. refl;
  sound = λ db v r hit h. grind (arith, h.receipt_fits, h.owner_open);
  flight = λ db v. quiet_flight _ _ db v.0 (λ r hit h. ground arith);
}

requeued-Safe :
    (o : Option String) (c : Ctx) (p : Db → QueueRow → Bool)
    → ((db : Db) (r : QueueRow) → p db r ≡ true → is_active r.status ≡ false)
    → Safe o p (requeued c queued)
requeued-Safe o c p idle = record {
  same_id = λ r. refl;
  same_key = λ r. refl;
  same_hash = λ r. refl;
  sound = λ db v r hit h. ground arith;
  flight = λ db v. quiet_flight _ _ db v.0 (λ r hit h. cc);
}

transitioned-RowOk :
    (o : Option String) (db : Db) (c : Ctx) (next : QueueStatus) (error : Option ErrorCode)
    (r : QueueRow)
    → (is_active next ≡ true → is_active r.status ≡ true)
    → is_status r.status applying ≡ false
    → is_status next applying ≡ false
    → is_status r.status failed ≡ false
    → (is_active r.status ≡ true → r.owner_session ≡ some c.session)
    → RowOk db.sessions db.receipts r
    → RowOk db.sessions db.receipts (transitioned c next error r)
transitioned-RowOk o db c next error r works idle idle' left owned h =
    ground (arith, h.owner_open c.session)

expected_status :
    (id : ℕ) (expected : QueueStatus) (owned : Bool) (r : QueueRow)
    → (r.id == id && (is_status r.status expected && owned)) ≡ true
    → r.status ≡ expected
expected_status id expected owned r hit =
    (is_status_iff r.status expected).0 (&&-eq-true (&&-eq-true hit).1).0

transitioned-Safe :
    (o : Option String) (c : Ctx) (id : ℕ) (expected next : QueueStatus) (error : Option ErrorCode)
    → can_transition_to expected next ≡ true
    → Safe o
        (λ _ r.
          r.id == id
          && (is_status r.status expected
              && (not (is_active expected) || has_text r.owner_session c.session)))
        (transitioned c next error)
transitioned-Safe o c id expected next error permitted = record {
  same_id = λ r. refl;
  same_key = λ r. refl;
  same_hash = λ r. refl;
  sound = λ db v r hit h.
      let same : r.status ≡ expected = expected_status id expected _ r hit in
      let bounds = can_transition_to_bounds expected next permitted in
      transitioned-RowOk o db c next error r (λ k. ap is_active same ∙ bounds.0 k)
        (ap (λ s. is_status s applying) same ∙ bounds.1) bounds.3
        (ap (λ s. is_status s failed) same ∙ bounds.2)
        (λ busy. ground (arith, has_text-eq r.owner_session c.session)) h;
  flight = λ db v. quiet_flight _ _ db v.0 (λ r hit h.
      ap is_active (expected_status id expected _ r hit)
      ∙ (can_transition_to_bounds expected next permitted).0 h);
}

interrupted-Safe :
    (c : Ctx)
    → Safe none
        (λ db r. is_processing r.status && owner_gone c db r.owner_session r.lease_expires_at)
        (interrupted c)
interrupted-Safe c = record {
  same_id = λ r. refl;
  same_key = λ r. refl;
  same_hash = λ r. refl;
  sound = λ db v r hit h. ground arith;
  flight = λ db v. quiet_flight _ _ db v.0 (λ r hit h. cc);
}

swapped-Safe :
    (o : Option String) (c : Ctx) (id : ℕ) (expected next : QueueStatus) (reset : Bool)
    → is_active expected ≡ false
    → is_active next ≡ false
    → (reset ≡ true) ⊎ (is_status expected failed ≡ false)
    → Safe o
        (λ _ r. r.id == id && is_status r.status expected)
        (λ r. if reset then requeued c next r else released c next r)
swapped-Safe o c id expected next reset idle idle' left = record {
  same_id = λ r. ground arith;
  same_key = λ r. ground arith;
  same_hash = λ r. ground arith;
  sound = λ db v r hit h. ground (arith, is_status_iff r.status expected);
  flight =
      λ db v. quiet_flight _ _ db v.0 (λ r hit h. ground (arith, is_status_iff r.status expected));
}

pub renew_lease-Keeps : (c : Ctx) (id : ℕ) → Keeps none (renew_lease c id)
unfolding renew_lease
renew_lease-Keeps c id = Keeps-touch c _ (Keeps-swap _ _ id _ (renewed-Safe _ c id))

pub transition-Keeps :
    (c : Ctx) (id : ℕ) (expected next : QueueStatus) (error : Option ErrorCode)
    → Keeps none (transition c id expected next error)
unfolding transition
transition-Keeps c id expected next error = Keeps-guarded none _ _ _ (λ permitted.
    Keeps-transaction none _
      (Keeps-swap _ _ id none (transitioned-Safe none c id expected next error permitted)))

pub cas_status-Keeps :
    (c : Ctx) (id : ℕ) (expected next : QueueStatus) (reset : Bool)
    → is_active expected ≡ false
    → is_active next ≡ false
    → (reset ≡ true) ⊎ (is_status expected failed ≡ false)
    → Keeps none (cas_status c id expected next reset)
unfolding cas_status
cas_status-Keeps c id expected next reset idle idle' left =
    Keeps-swap _ _ id none (swapped-Safe none c id expected next reset idle idle' left)

pub manual_retry-Keeps : (c : Ctx) (id : ℕ) → Keeps none (manual_retry c id)
unfolding manual_retry
manual_retry-Keeps c id = cas_status-Keeps c id failed queued true refl refl (inl refl)

pub complete_keep_original-Keeps :
    (c : Ctx) (id : ℕ) (expected : QueueStatus) → Keeps none (complete_keep_original c id expected)
unfolding complete_keep_original
complete_keep_original-Keeps c id expected = Keeps-guarded none _ _ _ (λ reviewable.
    cas_status-Keeps c id expected completed false (ground arith) refl (inr (ground arith)))

pub retry_duplicate-Keeps : (c : Ctx) (id : ℕ) → Keeps none (retry_duplicate c id)
unfolding retry_duplicate
retry_duplicate-Keeps c id = Keeps-swap _ _ id none (
    requeued-Safe none c
      (λ _ r. r.id == id && (is_status r.status needs_review && flagged_duplicate r.error_code))
      (λ db r hit. ground arith))

pub recover_interrupted-Keeps : (c : Ctx) → Keeps none (recover_interrupted c)
unfolding recover_interrupted
recover_interrupted-Keeps c = Keeps-update_items none _ _ (interrupted-Safe c)
