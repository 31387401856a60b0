-- ===== src/Applier/Safety/Copy.antt =====
-- About `cross_volume_transfer`, file_ops.rs: the verified copy, and its publication.
use intern.Prelude.{Text, String, ◌≡◌, ◌≢◌, sym, subst, ◌∙◌, ap, Option, none, some}
use intern.Domain.Error.{ErrorCode}
use intern.Receipt.{OperationReceipt}
use intern.Retry.Defs.{IoResult, ok, err}
use intern.Store.Plans.Results.{Like}
use intern.Applier.World.{Env, FileApplier}
use intern.Applier.Failure.{reconciliation_error}
use intern.Applier.Copy.{
  temporary_of, copied_or_failed, verified_copy_of, published_or_failed, publish_copy,
}
use intern.Applier.Safety.Laws.{IsLawful}
use intern.Applier.Safety.Rules.{Safe, Answer, Triple, Stops, Triple-know, Triple-pure}
use intern.Applier.Safety.Blocks.{
  Triple-bind, Triple-then, Triple-to, Triple-stops, Triple-try, Triple-test,
}
use intern.Applier.Safety.Steps.{
  Firm-Safe, Stops-reconciliation_error, Stops-journal_and_fail, Stops-temp_failure, Triple-journal,
}
use intern.Applier.Safety.Files.{
  Triple-exists, Triple-identity, Triple-handle_hash, Triple-copy, Triple-publish,
}

-- a third path
abbrev pub Apart : OperationReceipt → Text → Type 0
Apart o t = (t ≢ o.source) × (t ≢ o.destination)

abbrev pub ApartIfAny : OperationReceipt → Option Text → Type 0
ApartIfAny o none = Unit {0}
ApartIfAny o (some t) = Apart o t

Apart-at : (o : OperationReceipt) (t p : Text) → p ≡ t → Apart o t → Apart o p
Apart-at o t p e apart = ((λ f. apart.0 (sym e ∙ f)), (λ f. apart.1 (sym e ∙ f)))

Like-same : (o x y : OperationReceipt) → x ≡ y → Like o y → Like o x
Like-same o x y e like = subst (Like o) (sym e) like

module _ {E : Env} (content : E.State → Text → Option String) (path_of : E.Handle → Text)
    (o : OperationReceipt) (lawful : IsLawful E content path_of o.source o.destination)
    (fa : FileApplier) where
  stops :
      {A : Type 0} (r : OperationReceipt) (e : ErrorCode)
      → Stops {E = E} {A = A} content o (reconciliation_error fa r e)
  stops r e = Stops-reconciliation_error content path_of o lawful fa r e

  Triple-copied_or_failed :
      (r : OperationReceipt) (t : Text) (copy : IoResult E.Handle)
      → Like o r
      → Triple {E = E} content o
          (Answer content o (λ h s. Safe content o s × (path_of h ≡ t)) copy)
          (copied_or_failed fa r t copy)
          (λ h s. Safe content o s × (path_of h ≡ t))
  unfolding copied_or_failed
  Triple-copied_or_failed r t (ok locked) like =
      Triple-to content o _ _ _ _ (λ h s q. (q.0.0, ap path_of q.1 ∙ q.0.1))
        (Triple-pure content o _ locked)
  Triple-copied_or_failed r t (err _) like =
      Triple-bind content o _ (λ _. Safe content o) _ _ _
        (Triple-exists content path_of o lawful fa _ (Firm-Safe content o) _)
        λ there.
          Triple-stops content o _ _ _ (λ s v. v)
            (Stops-journal_and_fail content path_of o lawful fa _ _ _ like)

  pub Triple-verified_copy_of :
      (r : OperationReceipt) (t : Text)
      → Like o r
      → Apart o t
      → Triple {E = E} content o
          (Safe content o)
          (verified_copy_of fa r t)
          (λ y s. Safe content o s × Like o y)
  unfolding verified_copy_of
  Triple-verified_copy_of r t like apart =
      Triple-bind content o _ _ _ _ _
        (Triple-copy content path_of o lawful fa _ (Firm-Safe content o) _ t apart.0 apart.1)
        λ copy. Triple-bind content o _ _ _ _ _ (Triple-copied_or_failed r t copy like) λ locked.
          Triple-know content o _ _ _ _ λ at_t.
            Triple-bind content o _ _ _ _ _
              (Triple-journal content path_of o lawful fa _ (Firm-Safe content o) _ _ like)
              λ made. Triple-know content o _ _ _ _ λ like'.
                let (na, nb) = Apart-at o t (path_of locked) at_t apart in
                Triple-try content o _ _ _ _ _ _
                  (Triple-identity content path_of o lawful fa _ (Firm-Safe content o) _)
                  (λ e. stops _ _)
                  λ identity.
                    Triple-try content o _ _ _ _ _ _
                      (Triple-handle_hash content path_of o lawful fa _ (Firm-Safe content o) _)
                      (λ e.
                        Stops-temp_failure content path_of o lawful fa made locked _ like' na nb)
                      λ hash.
                        Triple-test content o _ _ _ _ _ (λ s v. v)
                          (Stops-temp_failure content path_of o lawful fa made locked _ like' na nb)
                          λ same.
                            Triple-bind content o _ _ _ _ _
                              (Triple-journal content path_of o lawful fa _ (Firm-Safe content o) _
                                _ like')
                              λ proven. Triple-know content o _ _ _ _ λ like''.
                                Triple-try content o _ _ _ _ _ _
                                  (Triple-identity content path_of o lawful fa _
                                    (Firm-Safe content o) _)
                                  (λ e. stops _ _)
                                  λ after.
                                    Triple-test content o _ _ _ _ _ (λ s v. v)
                                      (Stops-temp_failure content path_of o lawful fa proven locked
                                        _ like'' na nb)
                                      λ still.
                                        Triple-to content o _ _ _ _
                                          (λ y s q. (q.0, Like-same o _ _ q.1 like''))
                                          (Triple-pure content o _ proven)

  Triple-published_or_failed :
      (r : OperationReceipt) (t : Text) (out : IoResult (Unit {0}))
      → Like o r
      → Triple {E = E} content o
          (Safe content o)
          (published_or_failed fa r t out)
          (λ _. Safe content o)
  unfolding published_or_failed
  Triple-published_or_failed r t (ok _) like =
      Triple-to content o _ _ _ _ (λ u s q. q.0) (Triple-pure content o _ _)
  Triple-published_or_failed r t (err _) like =
      Triple-bind content o _ (λ _. Safe content o) _ _ _
        (Triple-exists content path_of o lawful fa _ (Firm-Safe content o) _)
        λ temporary_there.
          Triple-bind content o _ (λ _. Safe content o) _ _ _
            (Triple-exists content path_of o lawful fa _ (Firm-Safe content o) _)
            λ destination_there.
              Triple-stops content o _ _ _ (λ s v. v)
                (Stops-journal_and_fail content path_of o lawful fa _ _ _ like)

  pub Triple-publish_copy :
      (r : OperationReceipt) (t : Text)
      → Like o r
      → Apart o t
      → Triple {E = E} content o
          (Safe content o)
          (publish_copy fa r t)
          (λ y s. Safe content o s × Like o y)
  unfolding publish_copy
  Triple-publish_copy r t like apart =
      Triple-bind content o _ (λ _. Safe content o) _ _ _
        (Triple-publish content path_of o lawful fa _ _ apart.0 like.1.1)
        λ renamed.
          Triple-then content o _ (Safe content o) _ _ _
            (Triple-published_or_failed r t renamed like)
            (Triple-journal content path_of o lawful fa _ (Firm-Safe content o) _ _ like)

  pub Triple-temporary_of :
      (r : OperationReceipt) (path : Option Text)
      → ApartIfAny o path
      → Triple {E = E} content o
          (Safe content o)
          (temporary_of fa r path)
          (λ t s. Safe content o s × Apart o t)
  unfolding temporary_of
  Triple-temporary_of r none apart = Triple-stops content o _ _ _ (λ s v. v) (stops _ _)
  Triple-temporary_of r (some t) apart =
      Triple-to content o _ _ _ _ (λ u s q. (q.0, subst (Apart o) (sym q.1) apart))
        (Triple-pure content o _ t)
