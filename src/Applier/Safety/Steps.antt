-- ===== src/Applier/Safety/Steps.antt =====
-- About the journal entries and the failures of a move, file_ops.rs.
use intern.Prelude.{Text, String, ◌≡◌, ◌≢◌, sym, ◌∙◌, inl, inr, Option, some}
use intern.Domain.Error.{ErrorCode, InternResult}
use intern.Domain.Error
use intern.Receipt.{OperationReceipt, OperationStage}
use intern.Store.Db.{Db, Ctx}
use intern.Store.Tx.{Tx}
use intern.Store.Plans.{Leaves}
use intern.Store.Plans.Operations.{
  Leaves-renew, Leaves-record_rollback, Leaves-defer, Leaves-update,
}
use intern.Store.Plans.Results.{Given, Like, Gives-update}
use intern.Applier.World.{Env, FileApplier, fail, fail_with, on_store}
use intern.Applier.Failure.{
  defers, journal_failure, reconciliation_error, journal_and_fail, journal, temp_failure,
}
use intern.Applier.Safety.Laws.{Still, IsLawful}
use intern.Applier.Safety.Rules.{
  Safe, Firm, Triple, Stops, Triple-on_files, Triple-if, Triple-from, Triple-catch,
}
use intern.Applier.Safety.Blocks.{Triple-bind, Triple-stops, Triple-to, Triple-on_store}

module _ {S : Type 0} (content : S → Text → Option String) (o : OperationReceipt) where
  pub Firm-Safe : Firm content o (Safe content o)
  Firm-Safe = record { still = λ s s' e v. still_safe s s' e v; safe = λ s v. v }
    where
      still_safe :
          (s s' : S)
          → Still content o.source o.destination s s'
          → Safe content o s
          → Safe content o s'
      still_safe s s' e (inl v) = inl (e.0 ∙ v)
      still_safe s s' e (inr v) = inr (e.1 ∙ v)

  -- the content is at the destination
  abbrev pub Arrived : S → Type 0
  Arrived s = content s o.destination ≡ some o.pre_operation_hash

  pub Firm-Arrived : Firm content o Arrived
  Firm-Arrived = record { still = λ s s' e v. e.1 ∙ v; safe = λ s v. inr v }

  -- the hash `x` was read at the destination
  abbrev pub Seen : String → S → Type 0
  Seen x s = Safe content o s × (content s o.destination ≡ some x)

  pub Firm-Seen : (x : String) → Firm content o (Seen x)
  Firm-Seen x = record {
    still = λ s s' e v. (Firm-Safe.still s s' e v.0, e.1 ∙ v.1);
    safe = λ s v. v.0;
  }

module _ {E : Env} {A : Type 0} (content : E.State → Text → Option String)
    (o : OperationReceipt) where
  pub Stops-fail : (e : ErrorCode) → Stops {E = E} {A = A} content o (fail {E = E} e)
  unfolding fail
  Stops-fail e = record { at = λ w p v. (p, v) }

  pub Stops-fail_with :
      (r : OperationReceipt) (e : ErrorCode)
      → Stops {E = E} {A = A} content o (fail_with {E = E} r e)
  unfolding fail_with
  Stops-fail_with r e = record { at = λ w p v. (p, v) }

module _ {E : Env} (content : E.State → Text → Option String) (path_of : E.Handle → Text)
    (o : OperationReceipt) (lawful : IsLawful E content path_of o.source o.destination)
    (fa : FileApplier) where
  any-Given : {A : Type 0} (out : Db × InternResult A) → Given (λ _ _. Unit {0}) out
  any-Given (db, Error.ok a) = tt
  any-Given (db, Error.err e) = tt

  -- a call of the store whose result is not looked at
  pub Triple-Leaves :
      {A : Type 0} (F : E.State → Type 0)
      → Firm content o F
      → (m : Ctx → Tx A) → ((c : Ctx) → Leaves o (m c))
      → Triple {E = E} content o F (on_store {E = E} fa m) (λ _. F)
  Triple-Leaves F firm m leaves =
      Triple-to content o F _ _ _ (λ a s q. q.0)
        (Triple-on_store content path_of o lawful F firm fa m (λ _. Unit {0}) leaves
          (λ c. record { at = λ db p. any-Given (m c db) }))

  Triple-journal_failure :
      (r : OperationReceipt) (e : ErrorCode)
      → Triple {E = E} content o (Safe content o) (journal_failure fa r e) (λ _. Safe content o)
  unfolding journal_failure
  Triple-journal_failure r e =
      Triple-if content o _ (defers r e) _ _ _
        (Triple-Leaves _ (Firm-Safe content o) _ (λ c. Leaves-defer o c _ _ _))
        (Triple-Leaves _ (Firm-Safe content o) _ (λ c. Leaves-record_rollback o c _ _ _))

  pub Stops-reconciliation_error :
      {A : Type 0} (r : OperationReceipt) (e : ErrorCode)
      → Stops {E = E} {A = A} content o (reconciliation_error fa r e)
  unfolding reconciliation_error
  Stops-reconciliation_error r e =
      Triple-bind content o _ (λ _. Safe content o) _ _ _
        (Triple-catch content o _ _ _ _ (Triple-journal_failure r e)
          (Triple-stops content o _ _ _ (λ s v. v) (Stops-fail_with content o r _)))
        (λ item. Stops-fail_with content o r e)

  -- an entry of the journal
  pub Triple-journal :
      (F : E.State → Type 0)
      → Firm content o F
      → (s : OperationStage) (r : OperationReceipt) → Like o r
      → Triple {E = E} content o F (journal fa s r) (λ y t. F t × Like o y)
  unfolding journal
  Triple-journal F firm s r like =
      Triple-catch content o F _ _ _
        (Triple-on_store content path_of o lawful F firm fa _ (Like o) (λ c. Leaves-update o c s r)
          (λ c. Gives-update o c s r like.0))
        (Triple-stops content o _ _ _ (λ t v. v) (Stops-reconciliation_error r _))

  pub Stops-journal_and_fail :
      {A : Type 0} (s : OperationStage) (r : OperationReceipt) (e : ErrorCode)
      → Like o r
      → Stops {E = E} {A = A} content o (journal_and_fail fa s r e)
  unfolding journal_and_fail journal
  Stops-journal_and_fail s r e like =
      Triple-bind content o _ (λ y t. Safe content o t × Like o y) _ _ _
        (Triple-journal _ (Firm-Safe content o) s r like)
        (λ y. Triple-from content o _ _ _ _ (λ t v. v.0) (Stops-reconciliation_error y e))

  -- the deletion of a file at a third path
  pub Triple-delete_elsewhere :
      (h : E.Handle)
      → path_of h ≢ o.source
      → path_of h ≢ o.destination
      → (s : E.State) → Still content o.source o.destination s (E.handle_delete h s).0
  Triple-delete_elsewhere h na nb s = (
    lawful.delete_keeps h s o.source (λ e. na (sym e)),
    lawful.delete_keeps h s o.destination (λ e. nb (sym e)),
  )

  pub Stops-temp_failure :
      {A : Type 0} (r : OperationReceipt) (h : E.Handle) (e : ErrorCode)
      → Like o r
      → path_of h ≢ o.source
      → path_of h ≢ o.destination
      → Stops {E = E} {A = A} content o (temp_failure fa r h e)
  unfolding temp_failure
  Stops-temp_failure r h e like na nb =
      Triple-bind content o _ (λ _. Safe content o) _ _ _
        (Triple-catch content o _ _ _ _
          (Triple-Leaves _ (Firm-Safe content o) _ (λ c. Leaves-renew o c _ _ _))
          (Triple-stops content o _ _ _ (λ t v. v) (Stops-reconciliation_error _ _)))
        (λ item.
          Triple-bind content o _ (λ _. Safe content o) _ _ _
            (Triple-on_files content o _ _ _
              (λ s v. (Firm-Safe content o).still _ _ (Triple-delete_elsewhere h na nb s) v))
            (λ deleted. Stops-journal_and_fail _ _ _ like))
