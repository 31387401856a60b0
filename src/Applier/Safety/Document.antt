-- ===== src/Applier/Safety/Document.antt =====
-- About `transfer` and `reconcile`, file_ops.rs: where the document is afterwards.
use intern.Prelude.{ℕ, Text, String, ◌≡◌, ◌≢◌, refl, inr, Option, some}
use intern.Receipt.{OperationReceipt, OperationDirection}
use intern.Store.Db.{QueueItem, ReceiptRow}
use intern.Store.Invariant.Defs.{Inv}
use intern.Store.Plans.{Planned}
use intern.Applier.World.{Env, FileApplier, World, Outcome, ok, err, no_result}
use intern.Applier.Transfer.{Paths, temporary_path}
use intern.Applier.Entry.{transfer}
use intern.Applier.Reconcile.{reconcile_receipt, park_unsettled, settle_active}
use intern.Applier.Safety.Laws.{IsLawful}
use intern.Applier.Safety.Rules.{Safe, Post}
use intern.Applier.Safety.Copy.{ApartIfAny}
use intern.Applier.Safety.Start.{Ends}
use intern.Applier.Safety.Transfer.{Kept, Starts-transfer}
use intern.Applier.Safety.Settle.{Settles-receipt, parked-Post}

kept_at_end :
    {E : Env} (content : E.State → Text → Option String) (a b : Text) (h : String)
    (out : World E × Outcome OperationReceipt)
    → Ends {E = E} (Kept content a b h) (λ _ w. content w.state b ≡ some h) out
    → Kept content a b h out.0.state
      × ((y : OperationReceipt) → out.1 ≡ ok y → content out.0.state b ≡ some h)
kept_at_end content a b h (w, ok a') q = (inr q, (λ y e. q))
kept_at_end content a b h (w, err e r) q = (q, (λ y f. cc f))
kept_at_end content a b h (w, no_result) q = (q, (λ y f. cc f))

-- On a file system that answers and acts as `IsLawful` says at the source and the destination, which
-- other programs and sessions leave alone, where `to_string_lossy` keeps the two paths and no
-- temporary name is one of them: if the database has the invariant of the queue and a document is at
-- the source, then `transfer` leaves it at the source or at the destination, whichever calls report an
-- error (a rename may do so after it has moved the file), on one volume or two, and whether it
-- succeeds or fails; and if it succeeds, at the destination.
pub transfer_loses_nothing :
    (E : Env) (content : E.State → Text → Option String) (path_of : E.Handle → Text) (paths : Paths)
    (fa : FileApplier) (k : ℕ) (d : OperationDirection) (source destination : Text)
    (expected hash : String) (w : World E)
    → IsLawful E content path_of source destination
    → fa.to_string_lossy source ≡ source
    → fa.to_string_lossy destination ≡ destination
    → ((s : E.State)
        → (temporary_path paths destination (E.unique s).1 ≢ source)
          × (temporary_path paths destination (E.unique s).1 ≢ destination))
    → Inv w.db
    → content w.state source ≡ some hash
    → Kept content source destination hash
        (transfer paths fa k d source destination expected w).0.state
      × ((y : OperationReceipt)
          → (transfer paths fa k d source destination expected w).1 ≡ ok y
          → content (transfer paths fa k d source destination expected w).0.state destination
            ≡ some hash)
transfer_loses_nothing E content path_of paths fa k d source destination expected hash w lawful
      plain plain' fresh v there =
    kept_at_end content source destination hash
      (transfer paths fa k d source destination expected w)
      ((Starts-transfer content path_of source destination hash lawful fa plain plain' paths fresh k
          d expected).at
        w (v, there))

Safe-at_end :
    {E : Env} (content : E.State → Text → Option String) (o : OperationReceipt)
    (out : World E × Outcome QueueItem)
    → Post content o (λ _. Safe content o) out
    → Safe content o out.0.state
Safe-at_end content o (w, ok a) q = q.1
Safe-at_end content o (w, err e r) q = q.1
Safe-at_end content o (w, no_result) q = q.1

-- On a file system that answers and acts as `IsLawful` says at the source and the destination of a
-- receipt, which other programs and sessions leave alone, where the two differ and the temporary path,
-- if there is one, is neither of them: if the rows of the journal with the receipt's id have its plan, and
-- the content that was hashed before the move is at the source or at the destination, then settling
-- the receipt leaves it at one of them, in every stage, whichever calls fail, and whether the item
-- is settled or parked.
pub settle_active_loses_nothing :
    (E : Env) (content : E.State → Text → Option String) (path_of : E.Handle → Text)
    (fa : FileApplier) (k : ℕ) (row : ReceiptRow) (w : World E)
    → IsLawful E content path_of row.source row.destination
    → ApartIfAny row.receipt row.temporary_path
    → row.source ≢ row.destination
    → Planned row.receipt w.db
    → Kept content row.source row.destination row.pre_operation_hash w.state
    → Kept content row.source row.destination row.pre_operation_hash
        (settle_active fa k (some row) w).0.state
unfolding settle_active
settle_active_loses_nothing E content path_of fa k row w lawful apart distinct planned v =
    Safe-at_end content row.receipt
      (park_unsettled fa (reconcile_receipt fa row.receipt row.stage w))
      (parked-Post content path_of row.receipt lawful fa _ (
        (Settles-receipt content path_of row.receipt lawful fa row.receipt row.stage
            (refl, (refl, refl, refl, refl, refl, refl)) apart distinct).at
          w planned v))
