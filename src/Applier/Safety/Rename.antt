-- ===== src/Applier/Safety/Rename.antt =====
-- About `same_volume_transfer`, file_ops.rs: the rename, its verification, and the rename back.
use intern.Prelude.{Text, String, ◌∙◌, ap, eq_iff, Option, some}
use intern.Receipt.{OperationReceipt}
use intern.Retry.Defs.{IoResult, ok, err}
use intern.Store.Plans.Results.{Like}
use intern.Applier.World.{Env, FileApplier}
use intern.Applier.Transfer.{
  end_rollback, rollback_after_rename, renamed_receipt, verify_renamed, same_volume_transfer,
}
use intern.Applier.Safety.Laws.{IsLawful}
use intern.Applier.Safety.Rules.{Safe, Triple, Stops, Triple-from, Triple-know}
use intern.Applier.Safety.Blocks.{Triple-bind, Triple-to, Triple-try, Triple-tried, Triple-test}
use intern.Applier.Safety.Steps.{
  Firm-Safe, Arrived, Firm-Arrived, Stops-reconciliation_error, Stops-journal_and_fail,
  Triple-journal,
}
use intern.Applier.Safety.Files.{
  Triple-exists, Triple-identity, Triple-destination_hash, Triple-lock_retried, Triple-forth,
  Triple-back, answers-Safe,
}

module _ {E : Env} (content : E.State → Text → Option String) (path_of : E.Handle → Text)
    (o : OperationReceipt) (lawful : IsLawful E content path_of o.source o.destination)
    (fa : FileApplier) where
  Stops-end_rollback :
      {A : Type 0} (r : OperationReceipt) (out : IoResult (Unit {0}))
      → Like o r
      → Stops {E = E} {A = A} content o (end_rollback fa r out)
  unfolding end_rollback
  Stops-end_rollback r (ok _) like = Stops-journal_and_fail content path_of o lawful fa _ _ _ like
  Stops-end_rollback r (err _) like =
      Triple-bind content o _ (λ _. Safe content o) _ _ _
        (Triple-exists content path_of o lawful fa _ (Firm-Safe content o) _)
        λ source_there.
          Triple-bind content o _ (λ _. Safe content o) _ _ _
            (Triple-exists content path_of o lawful fa _ (Firm-Safe content o) _)
            λ destination_there. Stops-journal_and_fail content path_of o lawful fa _ _ _ like

  Stops-rollback_after_rename :
      {A : Type 0} (r : OperationReceipt)
      → Like o r
      → Stops {E = E} {A = A} content o (rollback_after_rename fa r)
  unfolding rollback_after_rename
  Stops-rollback_after_rename r like =
      Triple-bind content o _ (λ y s. Safe content o s × Like o y) _ _ _
        (Triple-journal content path_of o lawful fa _ (Firm-Safe content o) _ _ like)
        λ y. Triple-know content o _ _ _ _ λ like'.
          Triple-bind content o _ (λ _. Safe content o) _ _ _
            (Triple-back content path_of o lawful fa _ _ like'.1.1 like'.1.0)
            λ renamed. Stops-end_rollback y renamed like'

  Triple-renamed_receipt :
      (r : OperationReceipt)
      → Like o r
      → Triple {E = E} content o
          (Safe content o)
          (renamed_receipt fa r)
          (λ y s. Safe content o s × Like o y)
  unfolding renamed_receipt
  Triple-renamed_receipt r like =
      Triple-tried content o _ (Safe content o) _ _ _ _
        (Triple-to content o _ _ _ _ (answers-Safe content o)
          (Triple-forth content path_of o lawful fa _ _ like.1.0 like.1.1))
        (λ e. Stops-reconciliation_error content path_of o lawful fa _ _)
        (Triple-journal content path_of o lawful fa _ (Firm-Safe content o) _ _ like)

  -- The hash of the moved file is checked, so that the content is at the destination.
  Triple-verify_renamed :
      (r : OperationReceipt)
      → Like o r
      → Triple {E = E} content o
          (Safe content o)
          (verify_renamed fa r)
          (λ y s. Arrived content o s × Like o y)
  unfolding verify_renamed
  Triple-verify_renamed r like =
      let firm = Firm-Arrived content o in
      Triple-try content o _ _ _ _ _ _
        (Triple-lock_retried content path_of o lawful fa _ (Firm-Safe content o) _)
        (λ e. Stops-reconciliation_error content path_of o lawful fa _ _)
        λ locked. Triple-know content o _ _ _ _ λ at_b.
          Triple-try content o _ _ _ _ _ _
            (Triple-identity content path_of o lawful fa _ (Firm-Safe content o) _)
            (λ e. Stops-reconciliation_error content path_of o lawful fa _ _)
            λ identity.
              Triple-try content o _ _ _ _ _ _
                (Triple-destination_hash content path_of o lawful fa locked (at_b ∙ like.1.1))
                (λ e. Stops-rollback_after_rename _ like)
                λ hash.
                  Triple-test content o _ _ _ _ _ (λ s v. v.0) (Stops-rollback_after_rename _ like)
                    λ same.
                      Triple-from content o (Arrived content o) _ _ _
                        (λ s v. v.1 ∙ ap some ((eq_iff _ _).0 same ∙ like.1.2))
                        (Triple-try content o _ _ _ _ _ _
                          (Triple-identity content path_of o lawful fa _ firm _)
                          (λ e. Stops-reconciliation_error content path_of o lawful fa _ _)
                          λ after.
                            Triple-test content o _ _ _ _ _ firm.safe
                              (Stops-reconciliation_error content path_of o lawful fa _ _)
                              λ still. Triple-journal content path_of o lawful fa _ firm _ _ like)

  pub Triple-same_volume_transfer :
      (r : OperationReceipt)
      → Like o r
      → Triple {E = E} content o
          (Safe content o)
          (same_volume_transfer fa r)
          (λ y s. Arrived content o s × Like o y)
  unfolding same_volume_transfer
  Triple-same_volume_transfer r like =
      Triple-bind content o _ _ _ _ _ (Triple-renamed_receipt r like)
        λ y. Triple-know content o _ _ _ _ λ like'. Triple-verify_renamed y like'
