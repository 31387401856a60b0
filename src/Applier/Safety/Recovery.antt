-- ===== src/Applier/Safety/Recovery.antt =====
-- About `reconcile`, file_ops.rs: the deletion of a temporary file, and of a published source.
use intern.Prelude.{Text, String, ◌≢◌, sym, ◌∙◌, subst, Bool, true, false, not, Option, none, some}
use intern.Domain.Error.{state_conflict}
use intern.Receipt.{OperationReceipt, OperationStage}
use intern.Store.Applying.{renew_operation_lease}
use intern.Store.Plans.Operations.{Leaves-renew}
use intern.Store.Plans.Results.{Like}
use intern.Applier.World.{
  Env, FileApplier, FileIdentity, on_files, on_store, catch, check, fail_with,
}
use intern.Applier.Reconcile.{
  proves_copy, verify_temporary, delete_temporary, cleanup_at, cleanup_reconciled_temporary,
  delete_published_source,
}
use intern.Applier.Safety.Laws.{IsLawful}
use intern.Applier.Safety.Rules.{
  Safe, Firm, Answer, Triple, Triple-know, Triple-pure, Triple-catch, Triple-if,
}
use intern.Applier.Safety.Blocks.{
  Triple-bind, Triple-then, Triple-to, Triple-stops, Triple-expect, Triple-try, Triple-test,
  Triple-call,
}
use intern.Applier.Safety.Steps.{
  Firm-Safe, Arrived, Firm-Arrived, Stops-fail_with, Triple-Leaves, Triple-delete_elsewhere,
}
use intern.Applier.Safety.Files.{
  Triple-exists, Triple-identity, Triple-handle_hash, Triple-lock, Triple-lock_retried,
}
use intern.Applier.Safety.Copy.{Apart, ApartIfAny}
use intern.Applier.Safety.Finish.{Triple-delete_at_source}
use intern.Applier.Safety.Verify.{Triple-verify_handle}

module _ {E : Env} (content : E.State → Text → Option String) (path_of : E.Handle → Text)
    (o : OperationReceipt) (lawful : IsLawful E content path_of o.source o.destination)
    (fa : FileApplier) where
  Triple-verify_temporary :
      (r : OperationReceipt) (h : E.Handle)
      → Triple {E = E} content o (Safe content o) (verify_temporary fa r h) (λ _. Safe content o)
  unfolding verify_temporary
  Triple-verify_temporary r h =
      Triple-if content o _ (proves_copy r.stage) _ _ _
        (Triple-bind content o _ (λ _. Safe content o) _ _ _
          (Triple-verify_handle content path_of o lawful fa _ (Firm-Safe content o) r _ h)
          (λ i. Triple-to content o _ _ _ _ (λ u s q. q.0) (Triple-pure content o _ tt)))
        (Triple-to content o _ _ _ _ (λ u s q. q.0) (Triple-pure content o _ tt))

  Triple-delete-Apart :
      (h : E.Handle)
      → Apart o (path_of h)
      → Triple {E = E} content o
          (Safe content o)
          (on_files (E.handle_delete h))
          (Answer content o (λ _. Safe content o))
  Triple-delete-Apart h apart =
      let still = Triple-delete_elsewhere content path_of o lawful fa h apart.0 apart.1 in
      Triple-call content o _ _ _ (λ s v. (Firm-Safe content o).still _ _ (still s) v)
        (λ s a v e. (Firm-Safe content o).still _ _ (still s) v)

  Triple-renew :
      (F : E.State → Type 0)
      → Firm content o F
      → (r : OperationReceipt) (s : OperationStage)
      → Triple {E = E} content o F
          (catch
            (on_store fa (λ c. renew_operation_lease c r.queue_item_id r.id s))
            (fail_with r state_conflict))
          (λ _. F)
  Triple-renew F firm r s =
      Triple-catch content o _ _ _ _
        (Triple-Leaves content path_of o lawful fa _ firm _ (λ c. Leaves-renew o c _ _ _))
        (Triple-stops content o _ _ _ (λ s v. v) (Stops-fail_with content o _ _))

  Triple-delete_temporary :
      (r : OperationReceipt) (t : Text)
      → Apart o t
      → Triple {E = E} content o (Safe content o) (delete_temporary fa r t) (λ _. Safe content o)
  unfolding delete_temporary
  Triple-delete_temporary r t apart =
      Triple-try content o _ _ _ _ _ _
        (Triple-lock content path_of o lawful fa _ (Firm-Safe content o) t)
        (λ e. Stops-fail_with content o _ _)
        λ locked. Triple-know content o _ _ _ _ λ at_t.
          Triple-then content o _ (Safe content o) _ _ _ (Triple-verify_temporary r locked) (
            Triple-bind content o _ (λ _. Safe content o) _ _ _
              (Triple-renew _ (Firm-Safe content o) r _)
              λ item.
                Triple-expect content o _ _ _ _
                  (Triple-delete-Apart locked (subst (Apart o) (sym at_t) apart))
                  (λ e. Stops-fail_with content o _ _))

  Triple-cleanup_at :
      (r : OperationReceipt) (t : Option Text)
      → ApartIfAny o t
      → Triple {E = E} content o (Safe content o) (cleanup_at fa r t) (λ _. Safe content o)
  unfolding cleanup_at check
  Triple-cleanup_at r none apart =
      Triple-to content o _ _ _ _ (λ u s q. q.0) (Triple-pure content o _ tt)
  Triple-cleanup_at r (some t) apart =
      Triple-bind content o _ (λ _. Safe content o) _ _ _
        (Triple-exists content path_of o lawful fa _ (Firm-Safe content o) t)
        λ there.
          Triple-if content o _ there _ _ _ (Triple-delete_temporary r t apart)
            (checked (not r.temporary_exists))
    where
      checked :
          (b : Bool)
          → Triple {E = E} content o
              (Safe content o)
              (check b (fail_with r state_conflict))
              (λ _. Safe content o)
      checked true = record { at = λ w p v. (p, v) }
      checked false = Triple-stops content o _ _ _ (λ s v. v) (Stops-fail_with content o _ _)

  pub Triple-cleanup :
      (r : OperationReceipt)
      → ApartIfAny o r.temporary_path
      → Triple {E = E} content o
          (Safe content o)
          (cleanup_reconciled_temporary fa r)
          (λ _. Safe content o)
  unfolding cleanup_reconciled_temporary
  Triple-cleanup r apart = Triple-cleanup_at r r.temporary_path apart

  -- The source goes only once its content was seen at the destination.
  pub Triple-delete_published_source :
      (r : OperationReceipt) (shown : E.Handle) (identity : FileIdentity)
      → Like o r
      → o.source ≢ o.destination
      → Triple {E = E} content o
          (Arrived content o)
          (delete_published_source fa r shown identity)
          (λ _. Arrived content o)
  unfolding delete_published_source
  Triple-delete_published_source r shown identity like distinct =
      let firm = Firm-Arrived content o in
      Triple-try content o _ _ _ _ _ _ (Triple-lock_retried content path_of o lawful fa _ firm _)
        (λ e. Stops-fail_with content o _ _)
        λ source. Triple-know content o _ _ _ _ λ at_a.
          Triple-try content o _ _ _ _ _ _ (Triple-identity content path_of o lawful fa _ firm _)
            (λ e. Stops-fail_with content o _ _)
            λ before.
              Triple-try content o _ _ _ _ _ _
                (Triple-handle_hash content path_of o lawful fa _ firm _)
                (λ e. Stops-fail_with content o _ _)
                λ hash.
                  Triple-try content o _ _ _ _ _ _
                    (Triple-identity content path_of o lawful fa _ firm _)
                    (λ e. Stops-fail_with content o _ _)
                    λ after.
                      Triple-try content o _ _ _ _ _ _
                        (Triple-identity content path_of o lawful fa _ firm _)
                        (λ e. Stops-fail_with content o _ _)
                        λ shown_after.
                          Triple-test content o _ _ _ _ _ firm.safe (Stops-fail_with content o _ _)
                            λ same.
                              Triple-bind content o _ (λ _. Arrived content o) _ _ _
                                (Triple-renew _ firm r _)
                                λ item.
                                  Triple-expect content o _ _ _ _
                                    (Triple-delete_at_source content path_of o lawful fa source
                                      (at_a ∙ like.1.0) distinct)
                                    (λ e. Stops-fail_with content o _ _)
