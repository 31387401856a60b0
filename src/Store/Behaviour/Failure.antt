-- ===== src/Store/Behaviour/Failure.antt =====
-- `record_processing_failure`: the first failure queues an item again, the second one is final.
use intern.Prelude.{
  ℕ, ◌+◌, leb, fun_ext, ◌≡◌, refl, ap, ◌∙◌, sym, List, Bool, true, ◌&&◌, ◌⊎◌, Option, none, some,
  arith, Bool-cases, Option-cases, inl, inr, ◌==◌, has_text, if◌then◌else◌,
}
use intern.Prelude.Table.{update_where, find_where}
use intern.Prelude.Table
use intern.Domain.{QueueStatus, queued, failed}
use intern.Domain.Error.{ErrorCode, InternResult, ok, err, state_conflict}
use intern.Store.Db.{Db, QueueRow, SessionRow, ReceiptRow, Ctx}
use intern.Store.Tx.{◌>>=◌, pure, read, require, transaction, update_items}
use intern.Store.Queue.{record_processing_failure}
use intern.Store.Invariant.Defs.{Inv, RowOk}
use intern.Store.Behaviour.Spec.{is_being_read, is_processing-is_being_read}
use intern.Store.Behaviour.Swap.{row_at}

abbrev pub may_fail : Ctx → QueueRow → Bool
may_fail c r = is_being_read r.status && has_text r.owner_session c.session

-- the second failure is final
abbrev pub status_after : ℕ → QueueStatus
status_after failures = if leb 2 failures then failed else queued

abbrev pub put_back : Ctx → QueueStatus → ℕ → ErrorCode → QueueRow → QueueRow
put_back c status failures error r = record r {
  status = status;
  processing_failures = failures;
  error_code = some error;
  owner_session = none;
  lease_expires_at = none;
  updated_at = c.now;
}

abbrev pub failure_spec : Ctx → ℕ → ErrorCode → Db → Option QueueRow → Db × InternResult QueueStatus
failure_spec c id error db none = (db, err state_conflict)
failure_spec c id error db (some r) =
    if may_fail c r
    then (
      record db {
        items =
            update_where (λ x. x.id == id && has_text x.owner_session c.session)
              (put_back c (status_after (r.processing_failures + 1)) (r.processing_failures + 1)
                error)
              db.items;
      },
      ok (status_after (r.processing_failures + 1)),
    )
    else (db, err state_conflict)

-- Where the invariant holds, `record_processing_failure` counts a failure of an item that this
-- session is extracting or analysing, notes the error, releases the item, and answers with its new
-- status, `failed` from the second failure on and `queued` before; for any other item, and for none,
-- it is a conflict that changes nothing.
pub record_processing_failure_lem :
    (c : Ctx) (id : ℕ) (error : ErrorCode) (db : Db)
    → Inv db
    → record_processing_failure c id error db ≡ failure_spec c id error db (row_at id db)
unfolding record_processing_failure transaction read require pure update_items ◌>>=◌
record_processing_failure_lem c id error db v =
    rw
      (
        ap
            (λ (test : QueueStatus → Bool).
              find_where (λ r. r.id == id && (test r.status && has_text r.owner_session c.session))
                db.items)
            (fun_ext is_processing-is_being_read),
        Table.find-narrowed (λ r. r.id == id) (may_fail c) db.items (v.item_ids id),
      )
      (elim (Option-cases (row_at id db)) [
        | inl nowhere ↦ rw nowhere
        | inr (r, found) ↦
            rw found (elim (Bool-cases (may_fail c r)) [ inl e ↦ rw e | inr e ↦ rw e ])
      ])

failed_row :
    (c : Ctx) (id : ℕ) (error : ErrorCode) (db : Db) (r : QueueRow)
    → Inv db
    → row_at id db ≡ some r
    → may_fail c r ≡ true
    → row_at id (failure_spec c id error db (some r)).0
      ≡ some (
          put_back c (status_after (r.processing_failures + 1)) (r.processing_failures + 1) error r)
failed_row c id error db r v found e = rw e (
    Table.find-update (λ x. x.id == id && has_text x.owner_session c.session)
      (put_back c (status_after (r.processing_failures + 1)) (r.processing_failures + 1) error)
      (λ x. x.id == id) db.items (λ x. refl)
    ∙ rw found (ground (arith, (Table.All-find _ (λ x. x.id == id) db.items r found v.rows).1)))

failure_steps :
    (c : Ctx) (r : QueueRow) (sessions : List SessionRow) (receipts : List ReceiptRow)
    → RowOk sessions receipts r
    → may_fail c r ≡ true
    → ((r.processing_failures ≡ 0) × (status_after (r.processing_failures + 1) ≡ queued))
      ⊎ ((r.processing_failures ≡ 1) × (status_after (r.processing_failures + 1) ≡ failed))
failure_steps c r sessions receipts h e = ground (arith, h.failures_left)

-- Where the invariant holds: an answer of `record_processing_failure` is `queued` if the item had no
-- failure and `failed` if it had one, and it had no more; the item has that status then, one failure
-- more, the error given, no owner and no lease, and is otherwise as it was.
pub record_processing_failure_counts :
    (c : Ctx) (id : ℕ) (error : ErrorCode) (db : Db) (status : QueueStatus)
    → Inv db
    → (record_processing_failure c id error db).1 ≡ ok status
    → (r : QueueRow) × (row_at id db ≡ some r)
      × (((r.processing_failures ≡ 0) × (status ≡ queued))
          ⊎ ((r.processing_failures ≡ 1) × (status ≡ failed)))
      × (row_at id (record_processing_failure c id error db).0
          ≡ some (record r {
            status = status;
            processing_failures = r.processing_failures + 1;
            error_code = some error;
            owner_session = none;
            lease_expires_at = none;
            updated_at = c.now;
          }))
record_processing_failure_counts c id error db status v answer =
    rw (record_processing_failure_lem c id error db v) (
      counted (row_at id db) refl
        (ap (λ o. o.1) (sym (record_processing_failure_lem c id error db v)) ∙ answer))
  where
    refused : ◌≡◌ {A = InternResult QueueStatus} (err state_conflict) (ok status) → ⊥
    refused h = cc

    counted :
        (o : Option QueueRow)
        → row_at id db ≡ o
        → (failure_spec c id error db o).1 ≡ ok status
        → (r : QueueRow) × (o ≡ some r)
          × (((r.processing_failures ≡ 0) × (status ≡ queued))
              ⊎ ((r.processing_failures ≡ 1) × (status ≡ failed)))
          × (row_at id (failure_spec c id error db o).0
              ≡ some (record r {
                status = status;
                processing_failures = r.processing_failures + 1;
                error_code = some error;
                owner_session = none;
                lease_expires_at = none;
                updated_at = c.now;
              }))
    counted none found answered = absurd (refused answered)
    counted (some r) found answered = elim (Bool-cases (may_fail c r)) [
      | inr e ↦ absurd (refused (rw e at answered))
      | inl e ↦
          let (h, _) = Table.All-find _ (λ x. x.id == id) db.items r found v.rows in
          let same : status_after (r.processing_failures + 1) ≡ status =
            answers (rw e at answered) in
          (
            r,
            refl,
            rw (← same) (failure_steps c r _ _ h e),
            failed_row c id error db r v found e
                ∙ ap (λ x. some (put_back c x (r.processing_failures + 1) error r)) same,
          )
    ]
      where
        answers :
            {s : QueueStatus} → ◌≡◌ {A = InternResult QueueStatus} (ok s) (ok status) → s ≡ status
        answers h = cc
