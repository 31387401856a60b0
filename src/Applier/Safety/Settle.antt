-- ===== src/Applier/Safety/Settle.antt =====
-- About `reconcile`, file_ops.rs: the stages of an interrupted move.
use intern.Prelude.{Text, String, ◌≢◌, Bool, true, false, ◌&&◌, Option, none, some}
use intern.Domain.Error.{ErrorCode}
use intern.Receipt.{
  OperationReceipt, OperationStage, planned, copied, verified, published, rollback_required,
  rolled_back, complete, verified_copy, is_stage,
}
use intern.Store.Db.{Ctx, QueueItem}
use intern.Store.Tx.{Tx}
use intern.Store.Reconcile.{park_applying_for_review}
use intern.Store.Plans.{Planned, Leaves}
use intern.Store.Plans.Operations.{
  Leaves-resolve_rollback, Leaves-resolve_verified, Leaves-park, Leaves-update,
}
use intern.Store.Plans.Results.{Like, Gives-update}
use intern.Applier.World.{
  Env, FileApplier, World, Outcome, ok, err, no_result, App, fail_with, on_files, on_store, ◌>>=◌,
}
use intern.Applier.Entry.{is_kind}
use intern.Applier.Reconcile.{
  verify_reconciled_destination, reconcile_rolled_back, reconcile_complete, reconcile_published,
  survives_at, catch_up, may_catch_up, reconcile_both, reconcile_by, reconcile_incomplete,
  reconcile_receipt, park_unsettled,
}
use intern.Applier.Safety.Laws.{IsLawful}
use intern.Applier.Safety.Rules.{
  Safe, Post, Triple, Triple-from, Triple-know, Triple-pure, Triple-catch, Triple-if,
}
use intern.Applier.Safety.Blocks.{
  Triple-bind, Triple-then, Triple-to, Triple-stops, Triple-try, Triple-test, Triple-on_store,
}
use intern.Applier.Safety.Steps.{Firm-Safe, Arrived, Firm-Arrived, Stops-fail_with, Triple-Leaves}
use intern.Applier.Safety.Files.{Triple-exists, Triple-identity}
use intern.Applier.Safety.Copy.{ApartIfAny}
use intern.Applier.Safety.Recovery.{Triple-cleanup, Triple-delete_published_source}
use intern.Applier.Safety.Verify.{
  Triple-verify_reconciled_source, Triple-verify_reconciled_destination,
}

module _ {E : Env} (content : E.State → Text → Option String) (path_of : E.Handle → Text)
    (o : OperationReceipt) (lawful : IsLawful E content path_of o.source o.destination)
    (fa : FileApplier) where
  abbrev Settles : {A : Type 0} → App E A → Type 0
  Settles m = Triple content o (Safe content o) m (λ _. Safe content o)

  stops : {A : Type 0} (r : OperationReceipt) (e : ErrorCode) → Settles {A = A} (fail_with r e)
  stops r e = Triple-stops content o _ _ _ (λ s v. v) (Stops-fail_with content o r e)

  -- a call of the store at the end
  stored : (m : Ctx → Tx QueueItem) → ((c : Ctx) → Leaves o (m c)) → Settles (on_store fa m)
  stored m leaves = Triple-Leaves content path_of o lawful fa _ (Firm-Safe content o) m leaves

  looked : (p : Text) → Settles (on_files (E.exists p))
  looked p = Triple-exists content path_of o lawful fa _ (Firm-Safe content o) p

  Settles-rolled_back :
      (r : OperationReceipt) → ApartIfAny o r.temporary_path → Settles (reconcile_rolled_back fa r)
  unfolding reconcile_rolled_back
  Settles-rolled_back r apart =
      Triple-bind content o _ (λ _. Safe content o) _ _ _ (looked _)
        λ occupied.
          Triple-test content o _ _ _ _ _ (λ s v. v) (Stops-fail_with content o _ _)
            λ free.
              Triple-bind content o _ (λ _. Safe content o) _ _ _
                (Triple-verify_reconciled_source content path_of o lawful fa r)
                λ source.
                  Triple-then content o _ (Safe content o) _ _ _
                    (Triple-cleanup content path_of o lawful fa r apart)
                    (stored _ (λ c. Leaves-resolve_rollback o c _ _ _))

  verified_then :
      (r : OperationReceipt) (m : Ctx → Tx QueueItem)
      → Like o r
      → ((c : Ctx) → Leaves o (m c))
      → Settles (verify_reconciled_destination fa r >>= (λ h. on_store fa m))
  verified_then r m like leaves =
      Triple-bind content o _ (λ _. Arrived content o) _ _ _
        (Triple-verify_reconciled_destination content path_of o lawful fa r like)
        λ destination.
          Triple-from content o (Safe content o) _ _ _ (Firm-Arrived content o).safe
            (stored m leaves)

  Settles-complete : (r : OperationReceipt) → Like o r → Settles (reconcile_complete fa r)
  unfolding reconcile_complete
  Settles-complete r like =
      Triple-bind content o _ (λ _. Safe content o) _ _ _ (looked _)
        λ there.
          Triple-test content o _ _ _ _ _ (λ s v. v) (Stops-fail_with content o _ _)
            λ gone. verified_then r _ like (λ c. Leaves-resolve_verified o c _ _ _)

  Settles-published :
      (r : OperationReceipt)
      → Like o r
      → o.source ≢ o.destination
      → Settles (reconcile_published fa r)
  unfolding reconcile_published
  Settles-published r like distinct =
      let firm = Firm-Arrived content o in
      Triple-bind content o _ (λ _. Arrived content o) _ _ _
        (Triple-verify_reconciled_destination content path_of o lawful fa r like)
        λ destination.
          Triple-try content o _ _ (λ _. Arrived content o) _ _ _
            (Triple-identity content path_of o lawful fa _ firm _)
            (λ e. Stops-fail_with content o _ _)
            λ identity.
              Triple-bind content o _ (λ _. Arrived content o) _ _ _
                (Triple-exists content path_of o lawful fa _ firm _)
                λ there.
                  Triple-then content o _ (Arrived content o) _ _ _
                    (Triple-if content o _ there _ _ _
                      (Triple-delete_published_source content path_of o lawful fa r destination
                        identity like distinct)
                      (Triple-to content o _ _ _ _ (λ u s q. q.0) (Triple-pure content o _ tt)))
                    (Triple-from content o (Safe content o) _ _ _ firm.safe
                      (stored _ (λ c. Leaves-resolve_verified o c _ _ _)))

  Settles-catch_up :
      (r : OperationReceipt) → Like o r → o.source ≢ o.destination → Settles (catch_up fa r)
  unfolding catch_up
  Settles-catch_up r like distinct =
      Triple-bind content o _ (λ _. Arrived content o) _ _ _
        (Triple-verify_reconciled_destination content path_of o lawful fa r like)
        λ destination. Triple-from content o (Safe content o) _ _ _ (Firm-Arrived content o).safe (
          Triple-bind content o _ _ _ _ _
            (Triple-catch content o _ _ _ _
              (Triple-on_store content path_of o lawful _ (Firm-Safe content o) fa _ (Like o)
                (λ c. Leaves-update o c _ _) (λ c. Gives-update o c _ _ like.0))
              (Triple-stops content o _ _ _ (λ s v. v) (Stops-fail_with content o _ _)))
            λ shown. Triple-know content o _ _ _ _ λ like'. Settles-published shown like' distinct)

  Settles-survives : (t : Option Text) → Settles (survives_at fa t)
  unfolding survives_at
  Settles-survives none = Triple-to content o _ _ _ _ (λ u s q. q.0) (Triple-pure content o _ false)
  Settles-survives (some t) = looked t

  Settles-may_catch_up : (r : OperationReceipt) → Settles (may_catch_up fa r)
  unfolding may_catch_up
  Settles-may_catch_up r =
      Triple-if content o _ (is_kind r.kind verified_copy && is_stage r.stage verified) _ _ _
        (Triple-bind content o _ (λ _. Safe content o) _ _ _ (Settles-survives _)
          λ survives. Triple-to content o _ _ _ _ (λ u s q. q.0) (Triple-pure content o _ _))
        (Triple-to content o _ _ _ _ (λ u s q. q.0) (Triple-pure content o _ false))

  Settles-by :
      (r : OperationReceipt) (source_exists destination_exists : Bool)
      → Like o r
      → ApartIfAny o r.temporary_path
      → o.source ≢ o.destination
      → Settles (reconcile_by fa r source_exists destination_exists)
  unfolding reconcile_by reconcile_both
  Settles-by r true false like apart distinct =
      Triple-bind content o _ (λ _. Safe content o) _ _ _
        (Triple-verify_reconciled_source content path_of o lawful fa r)
        λ source.
          Triple-then content o _ (Safe content o) _ _ _
            (Triple-cleanup content path_of o lawful fa r apart)
            (stored _ (λ c. Leaves-resolve_rollback o c _ _ _))
  Settles-by r false true like apart distinct =
      verified_then r _ like (λ c. Leaves-resolve_verified o c _ _ _)
  Settles-by r true true like apart distinct =
      Triple-bind content o _ (λ _. Safe content o) _ _ _ (Settles-may_catch_up r)
        λ recoverable.
          Triple-if content o _ recoverable _ _ _ (Settles-catch_up r like distinct) (stops _ _)
  Settles-by r false false like apart distinct = stops _ _

  Settles-incomplete :
      (r : OperationReceipt)
      → Like o r
      → ApartIfAny o r.temporary_path
      → o.source ≢ o.destination
      → Settles (reconcile_incomplete fa r)
  unfolding reconcile_incomplete
  Settles-incomplete r like apart distinct =
      Triple-bind content o _ (λ _. Safe content o) _ _ _ (looked _)
        λ source_exists.
          Triple-bind content o _ (λ _. Safe content o) _ _ _ (looked _)
            λ destination_exists. Settles-by r source_exists destination_exists like apart distinct

  pub Settles-receipt :
      (r : OperationReceipt) (stage : OperationStage)
      → Like o r
      → ApartIfAny o r.temporary_path
      → o.source ≢ o.destination
      → Settles (reconcile_receipt fa r stage)
  unfolding reconcile_receipt
  Settles-receipt r rolled_back like apart distinct = Settles-rolled_back r apart
  Settles-receipt r published like apart distinct = Settles-published r like distinct
  Settles-receipt r complete like apart distinct = Settles-complete r like
  Settles-receipt r planned like apart distinct = Settles-incomplete r like apart distinct
  Settles-receipt r copied like apart distinct = Settles-incomplete r like apart distinct
  Settles-receipt r verified like apart distinct = Settles-incomplete r like apart distinct
  Settles-receipt r rollback_required like apart distinct = Settles-incomplete r like apart distinct

  pub parked-Post :
      (out : World E × Outcome QueueItem)
      → Post content o (λ _. Safe content o) out
      → Post content o (λ _. Safe content o) (park_unsettled fa out)
  parked-Post (w, ok item) q = q
  parked-Post (w, no_result) q = q
  parked-Post (w, err code none) q = q
  parked-Post (w, err code (some r)) q =
      ended (on_store fa (λ c. park_applying_for_review c r.queue_item_id r.id code) w)
        ((stored _ (λ c. Leaves-park o c _ _ _)).at w q.0 q.1)
    where
      ended :
          (out : World E × Outcome QueueItem)
          → Post content o (λ _. Safe content o) out
          → Planned o out.0.db × Safe content o out.0.state
      ended (w', ok item) q' = q'
      ended (w', err e r') q' = q'
      ended (w', no_result) q' = q'
