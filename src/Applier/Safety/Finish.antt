-- ===== src/Applier/Safety/Finish.antt =====
-- About `cross_volume_transfer`, file_ops.rs: the verification of the published copy, and the deletion
-- of the source.
use intern.Prelude.{Text, String, ◌≡◌, ◌≢◌, sym, ◌∙◌, ap, Option, some, eq_iff, inr}
use intern.Receipt.{OperationReceipt}
use intern.Store.Plans.Operations.{Leaves-renew}
use intern.Store.Plans.Results.{Like}
use intern.Applier.World.{Env, FileApplier, FileIdentity, on_files}
use intern.Applier.Copy.{delete_source, finish_copy, cross_volume_transfer}
use intern.Applier.Safety.Laws.{IsLawful}
use intern.Applier.Safety.Rules.{Safe, Answer, Triple, Triple-from, Triple-know, Triple-catch}
use intern.Applier.Safety.Blocks.{Triple-bind, Triple-stops, Triple-try, Triple-test, Triple-call}
use intern.Applier.Safety.Steps.{
  Firm-Safe, Arrived, Firm-Arrived, Stops-reconciliation_error, Stops-journal_and_fail,
  Triple-journal, Triple-Leaves,
}
use intern.Applier.Safety.Files.{
  Triple-identity, Triple-handle_hash, Triple-destination_hash, Triple-lock,
}
use intern.Applier.Safety.Copy.{
  ApartIfAny, Triple-verified_copy_of, Triple-publish_copy, Triple-temporary_of,
}

module _ {E : Env} (content : E.State → Text → Option String) (path_of : E.Handle → Text)
    (o : OperationReceipt) (lawful : IsLawful E content path_of o.source o.destination)
    (fa : FileApplier) where
  -- The deletion of the source, once the content is at the destination.
  pub Triple-delete_at_source :
      (h : E.Handle)
      → path_of h ≡ o.source
      → o.source ≢ o.destination
      → Triple {E = E} content o
          (Arrived content o)
          (on_files (E.handle_delete h))
          (Answer content o (λ _. Arrived content o))
  Triple-delete_at_source h at_a apart =
      Triple-call content o _ _ _ (λ s v. inr (delete_arrived s v)) (λ s a v e. delete_arrived s v)
    where
      delete_arrived :
          (s : E.State) → Arrived content o s → Arrived content o (E.handle_delete h s).0
      delete_arrived s v = lawful.delete_keeps h s o.destination (λ e. apart (sym (e ∙ at_a))) ∙ v

  Triple-delete_source :
      (r : OperationReceipt) (locked : E.Handle) (identity : FileIdentity) (shown : E.Handle)
      (shown_identity : FileIdentity)
      → Like o r
      → path_of locked ≡ o.source
      → o.source ≢ o.destination
      → Triple {E = E} content o
          (Arrived content o)
          (delete_source fa r locked identity shown shown_identity)
          (λ y s. Arrived content o s × Like o y)
  unfolding delete_source
  Triple-delete_source r locked identity shown shown_identity like at_a apart =
      let firm = Firm-Arrived content o in
      Triple-try content o _ _ _ _ _ _ (Triple-identity content path_of o lawful fa _ firm _)
        (λ e. Stops-reconciliation_error content path_of o lawful fa _ _)
        λ before.
          Triple-test content o _ _ _ _ _ firm.safe
            (Stops-reconciliation_error content path_of o lawful fa _ _)
            λ unchanged.
              Triple-try content o _ _ _ _ _ _
                (Triple-handle_hash content path_of o lawful fa _ firm _)
                (λ e. Stops-reconciliation_error content path_of o lawful fa _ _)
                λ hash.
                  Triple-test content o _ _ _ _ _ firm.safe
                    (Stops-reconciliation_error content path_of o lawful fa _ _)
                    λ same.
                      Triple-try content o _ _ _ _ _ _
                        (Triple-identity content path_of o lawful fa _ firm _)
                        (λ e. Stops-reconciliation_error content path_of o lawful fa _ _)
                        λ after.
                          Triple-test content o _ _ _ _ _ firm.safe
                            (Stops-reconciliation_error content path_of o lawful fa _ _)
                            λ still.
                              Triple-bind content o _ (λ _. Arrived content o) _ _ _
                                (Triple-catch content o _ _ _ _
                                  (Triple-Leaves content path_of o lawful fa _ firm _
                                    (λ c. Leaves-renew o c _ _ _))
                                  (Triple-stops content o _ _ _ (λ s v. v)
                                    (Stops-reconciliation_error content path_of o lawful fa _ _)))
                                λ item.
                                  Triple-try content o _ _ _ _ _ _
                                    (Triple-delete_at_source locked at_a apart)
                                    (λ e.
                                      Stops-reconciliation_error content path_of o lawful fa _ _)
                                    λ deleted.
                                      Triple-journal content path_of o lawful fa _ firm _ _ like

  pub Triple-finish_copy :
      (r : OperationReceipt) (identity : FileIdentity) (locked : E.Handle)
      → Like o r
      → path_of locked ≡ o.source
      → o.source ≢ o.destination
      → Triple {E = E} content o
          (Safe content o)
          (finish_copy fa r identity locked)
          (λ y s. Arrived content o s × Like o y)
  unfolding finish_copy
  Triple-finish_copy r identity locked like at_a apart =
      Triple-try content o _ _ _ _ _ _
        (Triple-lock content path_of o lawful fa _ (Firm-Safe content o) _)
        (λ e. Stops-reconciliation_error content path_of o lawful fa _ _)
        λ shown. Triple-know content o _ _ _ _ λ at_b.
          Triple-try content o _ _ _ _ _ _
            (Triple-identity content path_of o lawful fa _ (Firm-Safe content o) _)
            (λ e. Stops-reconciliation_error content path_of o lawful fa _ _)
            λ shown_identity.
              Triple-try content o _ _ _ _ _ _
                (Triple-destination_hash content path_of o lawful fa shown (at_b ∙ like.1.1))
                (λ e. Stops-reconciliation_error content path_of o lawful fa _ _)
                λ hash.
                  Triple-test content o _ _ _ _ _ (λ s v. v.0)
                    (Stops-journal_and_fail content path_of o lawful fa _ _ _ like)
                    λ same.
                      Triple-from content o (Arrived content o) _ _ _
                        (λ s v. v.1 ∙ ap some ((eq_iff _ _).0 same ∙ like.1.2))
                        (Triple-bind content o _ _ _ _ _
                          (Triple-journal content path_of o lawful fa _ (Firm-Arrived content o) _ _
                            like)
                          λ proven. Triple-know content o _ _ _ _ λ like'.
                            Triple-delete_source proven locked identity shown shown_identity like'
                              at_a apart)

  pub Triple-cross_volume_transfer :
      (r : OperationReceipt) (identity : FileIdentity) (locked : E.Handle)
      → Like o r
      → ApartIfAny o r.temporary_path
      → path_of locked ≡ o.source
      → o.source ≢ o.destination
      → Triple {E = E} content o
          (Safe content o)
          (cross_volume_transfer fa r identity locked)
          (λ y s. Arrived content o s × Like o y)
  unfolding cross_volume_transfer
  Triple-cross_volume_transfer r identity locked like apart at_a distinct =
      Triple-bind content o _ _ _ _ _
        (Triple-temporary_of content path_of o lawful fa r r.temporary_path apart)
        λ t. Triple-know content o _ _ _ _ λ apart_t.
          Triple-bind content o _ _ _ _ _
            (Triple-verified_copy_of content path_of o lawful fa r t like apart_t)
            λ proven. Triple-know content o _ _ _ _ λ like'.
              Triple-bind content o _ _ _ _ _
                (Triple-publish_copy content path_of o lawful fa proven t like' apart_t)
                λ shown.
                  Triple-know content o _ _ _ _
                    λ like''. Triple-finish_copy shown identity locked like'' at_a distinct
