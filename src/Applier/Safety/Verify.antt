-- ===== src/Applier/Safety/Verify.antt =====
-- About `reconcile`, file_ops.rs: the checks of the files of an interrupted move by their hashes.
use intern.Prelude.{
  Text, String, ◌≡◌, refl, ◌∙◌, ap, Bool, true, false, ◌&&◌, Option, some, str_eq, eq_iff,
}
use intern.Domain.Error.{ErrorCode}
use intern.Receipt.{OperationReceipt}
use intern.Store.Plans.Results.{Like}
use intern.Applier.World.{Env, FileApplier, fail_with}
use intern.Applier.Reconcile.{
  verify_handle, verify_reconciled_source, verify_reconciled_destination,
}
use intern.Applier.Safety.Laws.{IsLawful}
use intern.Applier.Safety.Rules.{Safe, Firm, Triple, Stops, Triple-from, Triple-know, Triple-pure}
use intern.Applier.Safety.Blocks.{Triple-bind, Triple-to, Triple-try, Triple-test}
use intern.Applier.Safety.Steps.{Firm-Safe, Arrived, Firm-Seen, Stops-fail_with}
use intern.Applier.Safety.Files.{
  Triple-identity, Triple-handle_hash, Triple-destination_hash, Triple-lock,
}

both_left : (p q : Bool) → (p && q) ≡ true → p ≡ true
both_left true q e = refl
both_left false q e = e

module _ {E : Env} (content : E.State → Text → Option String) (path_of : E.Handle → Text)
    (o : OperationReceipt) (lawful : IsLawful E content path_of o.source o.destination)
    (fa : FileApplier) where
  fails :
      {A : Type 0} (r : OperationReceipt) (e : ErrorCode)
      → Stops {E = E} {A = A} content o (fail_with r e)
  fails r e = Stops-fail_with content o r e

  pub Triple-verify_handle :
      (F : E.State → Type 0)
      → Firm content o F
      → (r : OperationReceipt) (code : ErrorCode) (h : E.Handle)
      → Triple {E = E} content o F (verify_handle fa r code h) (λ _. F)
  unfolding verify_handle
  Triple-verify_handle F firm r code h =
      Triple-try content o _ _ _ _ _ _ (Triple-identity content path_of o lawful fa F firm h)
        (λ e. fails _ _)
        λ identity.
          Triple-try content o _ _ _ _ _ _ (Triple-handle_hash content path_of o lawful fa F firm h)
            (λ e. fails _ _)
            λ hash.
              Triple-try content o _ _ _ _ _ _
                (Triple-identity content path_of o lawful fa F firm h) (λ e. fails _ _)
                λ after. Triple-test content o _ _ _ _ _ firm.safe (fails _ _) λ same.
                  Triple-to content o _ _ _ _ (λ i s q. q.0) (Triple-pure content o _ identity)

  -- The hash of the file at the destination is checked.
  Triple-verify_destination :
      (r : OperationReceipt) (code : ErrorCode) (h : E.Handle)
      → Like o r
      → path_of h ≡ o.destination
      → Triple {E = E} content o
          (Safe content o)
          (verify_handle fa r code h)
          (λ _. Arrived content o)
  unfolding verify_handle
  Triple-verify_destination r code h like at_b =
      Triple-try content o _ _ _ _ _ _
        (Triple-identity content path_of o lawful fa _ (Firm-Safe content o) h) (λ e. fails _ _)
        λ identity.
          Triple-try content o _ _ _ _ _ _
            (Triple-destination_hash content path_of o lawful fa h at_b) (λ e. fails _ _)
            λ hash.
              Triple-try content o _ _ _ _ _ _
                (Triple-identity content path_of o lawful fa _ (Firm-Seen content o hash) h)
                (λ e. fails _ _)
                λ after.
                  Triple-test content o _ _ _ _ _ (λ s v. v.0) (fails _ _)
                    λ same.
                      Triple-from content o (Arrived content o) _ _ _
                        (λ s v.
                          v.1
                          ∙ ap some
                              ((eq_iff hash _).0 (both_left (str_eq hash _) _ same) ∙ like.1.2))
                        (Triple-to content o _ _ _ _ (λ i s q. q.0)
                          (Triple-pure content o _ identity))

  pub Triple-verify_reconciled_source :
      (r : OperationReceipt)
      → Triple {E = E} content o
          (Safe content o)
          (verify_reconciled_source fa r)
          (λ _. Safe content o)
  unfolding verify_reconciled_source
  Triple-verify_reconciled_source r =
      Triple-try content o _ _ _ _ _ _
        (Triple-lock content path_of o lawful fa _ (Firm-Safe content o) _) (λ e. fails _ _)
        λ locked. Triple-know content o _ _ _ _ λ at_a.
          Triple-bind content o _ (λ _. Safe content o) _ _ _
            (Triple-verify_handle _ (Firm-Safe content o) r _ locked)
            λ identity. Triple-to content o _ _ _ _ (λ i s q. q.0) (Triple-pure content o _ locked)

  pub Triple-verify_reconciled_destination :
      (r : OperationReceipt)
      → Like o r
      → Triple {E = E} content o
          (Safe content o)
          (verify_reconciled_destination fa r)
          (λ _. Arrived content o)
  unfolding verify_reconciled_destination
  Triple-verify_reconciled_destination r like =
      Triple-test content o _ _ _ _ _ (λ s v. v) (fails _ _)
        λ fits.
          Triple-try content o _ _ _ _ _ _
            (Triple-lock content path_of o lawful fa _ (Firm-Safe content o) _) (λ e. fails _ _)
            λ locked. Triple-know content o _ _ _ _ λ at_b.
              Triple-bind content o _ (λ _. Arrived content o) _ _ _
                (Triple-verify_destination r _ locked like (at_b ∙ like.1.1))
                λ identity.
                  Triple-to content o _ _ _ _ (λ i s q. q.0) (Triple-pure content o _ locked)
