-- ===== src/Applier/Safety/Files.antt =====
-- About the calls of the file system in a move, file_ops.rs.
use intern.Prelude.{Text, String, ◌≡◌, ◌≢◌, sym, ◌∙◌, ap, ◌⊎◌, inl, inr, Option, none, some}
use intern.Receipt.{OperationReceipt}
use intern.Retry.Defs.{IoResult, ok, err}
use intern.Applier.World.{Env, FileApplier, on_files, retrying}
use intern.Applier.Safety.Laws.{Still, IsLawful}
use intern.Applier.Safety.Rules.{Safe, Firm, Answer, Triple, Triple-on_files, retried_from}
use intern.Applier.Safety.Blocks.{Triple-call, Triple-retried}
use intern.Applier.Safety.Steps.{Firm-Safe, Seen}

full_or_free : (x : Option String) (h : String) → x ≡ none → x ≡ some h → ⊥
full_or_free x h free full = cc (free, full)

module _ {E : Env} (content : E.State → Text → Option String) (path_of : E.Handle → Text)
    (o : OperationReceipt) (lawful : IsLawful E content path_of o.source o.destination)
    (fa : FileApplier) where
  module _ (F : E.State → Type 0) (firm : Firm content o F) where
    -- a call that leaves the two paths alone
    Triple-Still :
        {A : Type 0} (f : E.State → E.State × IoResult A)
        → ((s : E.State) → Still content o.source o.destination s (f s).0)
        → Triple {E = E} content o F (on_files f) (Answer content o (λ _. F))
    Triple-Still f still =
        Triple-call content o F _ f (λ s v. firm.safe _ (firm.still _ _ (still s) v))
          (λ s a v e. firm.still _ _ (still s) v)

    pub Triple-exists : (p : Text) → Triple {E = E} content o F (on_files (E.exists p)) (λ _. F)
    Triple-exists p =
        Triple-on_files content o F _ _ (λ s v. firm.still _ _ (lawful.exists_still p s) v)

    pub Triple-identity :
        (h : E.Handle)
        → Triple {E = E} content o F (on_files (E.handle_identity h)) (Answer content o (λ _. F))
    Triple-identity h = Triple-Still _ (lawful.identity_still h)

    pub Triple-handle_hash :
        (h : E.Handle)
        → Triple {E = E} content o F (on_files (E.handle_hash h)) (Answer content o (λ _. F))
    Triple-handle_hash h = Triple-Still _ (lawful.handle_hash_still h)

    pub Triple-lock :
        (p : Text)
        → Triple {E = E} content o F
            (on_files (E.lock_for_delete p))
            (Answer content o (λ h s. F s × (path_of h ≡ p)))
    Triple-lock p =
        Triple-call content o F _ _ (λ s v. firm.safe _ (firm.still _ _ (lawful.lock_still p s) v))
          (λ s h v e. (firm.still _ _ (lawful.lock_still p s) v, lawful.lock_says p s h e))

    pub Triple-lock_retried :
        (p : Text)
        → Triple {E = E} content o F
            (retrying fa (E.lock_for_delete p))
            (Answer content o (λ h s. F s × (path_of h ≡ p)))
    Triple-lock_retried p =
        Triple-retried content o F _ fa _ (λ s v. firm.still _ _ (lawful.lock_still p s) v)
          firm.safe
          (λ s h v e. (firm.still _ _ (lawful.lock_still p s) v, lawful.lock_says p s h e))

    pub Triple-copy :
        (p q : Text)
        → q ≢ o.source
        → q ≢ o.destination
        → Triple {E = E} content o F
            (on_files (E.copy_new_locked p q))
            (Answer content o (λ h s. F s × (path_of h ≡ q)))
    Triple-copy p q na nb =
        Triple-call content o F _ _
          (λ s v. firm.safe _ (firm.still _ _ (lawful.copy_still p q s na nb) v))
          (λ s h v e.
            (firm.still _ _ (lawful.copy_still p q s na nb) v, lawful.copy_says p q s h e))

  -- the hash of the file at the destination
  pub Triple-destination_hash :
      (h : E.Handle)
      → path_of h ≡ o.destination
      → Triple {E = E} content o
          (Safe content o)
          (on_files (E.handle_hash h))
          (Answer content o (Seen content o))
  Triple-destination_hash h at_b =
      Triple-call content o _ _ _
        (λ s v. (Firm-Safe content o).still _ _ (lawful.handle_hash_still h s) v)
        (λ s x v e. (
          (Firm-Safe content o).still _ _ (lawful.handle_hash_still h s) v,
          (lawful.handle_hash_still h s).1
              ∙ (ap (content s) (sym at_b) ∙ lawful.handle_hash_says h s x e),
        ))

  -- what a rename did to the files
  abbrev Acts : Text → Text → E.State → Type 0
  Acts p q s =
      ((x : Text) (c : String)
        → content s x ≡ some c
        → content (E.rename_no_replace p q s).0 x ≡ some c)
      ⊎ ((content s q ≡ none) × (content (E.rename_no_replace p q s).0 q ≡ content s p))

  kept-Safe :
      (p q : Text) (s : E.State)
      → ((x : Text) (c : String)
          → content s x ≡ some c
          → content (E.rename_no_replace p q s).0 x ≡ some c)
      → Safe content o s
      → Safe content o (E.rename_no_replace p q s).0
  kept-Safe p q s kept (inl v) = inl (kept _ _ v)
  kept-Safe p q s kept (inr v) = inr (kept _ _ v)

  -- A rename between the two paths, or from a third path to the destination, loses nothing.
  forth-Safe :
      (p q : Text) (s : E.State)
      → Acts p q s
      → p ≡ o.source
      → q ≡ o.destination
      → Safe content o s
      → Safe content o (E.rename_no_replace p q s).0
  forth-Safe p q s (inl kept) at_a at_b v = kept-Safe p q s kept v
  forth-Safe p q s (inr (free, moved)) at_a at_b (inl there) =
      inr (ap (content _) (sym at_b) ∙ (moved ∙ (ap (content s) at_a ∙ there)))
  forth-Safe p q s (inr (free, moved)) at_a at_b (inr there) =
      absurd (full_or_free _ _ free (ap (content s) at_b ∙ there))

  back-Safe :
      (p q : Text) (s : E.State)
      → Acts p q s
      → p ≡ o.destination
      → q ≡ o.source
      → Safe content o s
      → Safe content o (E.rename_no_replace p q s).0
  back-Safe p q s (inl kept) at_b at_a v = kept-Safe p q s kept v
  back-Safe p q s (inr (free, moved)) at_b at_a (inr there) =
      inl (ap (content _) (sym at_a) ∙ (moved ∙ (ap (content s) at_b ∙ there)))
  back-Safe p q s (inr (free, moved)) at_b at_a (inl there) =
      absurd (full_or_free _ _ free (ap (content s) at_a ∙ there))

  publish-Safe :
      (p q : Text) (s : E.State)
      → Acts p q s
      → p ≢ o.source
      → q ≡ o.destination
      → Safe content o s
      → Safe content o (E.rename_no_replace p q s).0
  publish-Safe p q s (inl kept) na at_b v = kept-Safe p q s kept v
  publish-Safe p q s (inr (free, moved)) na at_b (inl there) = inl (
      lawful.rename_keeps p q s o.source (λ e. na (sym e))
        (λ e. full_or_free _ _ free (ap (content s) (sym e) ∙ there))
      ∙ there)
  publish-Safe p q s (inr (free, moved)) na at_b (inr there) =
      absurd (full_or_free _ _ free (ap (content s) at_b ∙ there))

  Triple-renamed :
      (p q : Text)
      → ((s : E.State) → Safe content o s → Safe content o (E.rename_no_replace p q s).0)
      → Triple {E = E} content o
          (Safe content o)
          (retrying fa (E.rename_no_replace p q))
          (λ _. Safe content o)
  unfolding retrying
  Triple-renamed p q keep = record {
    at = λ w p' v. (p', retried_from content o _ fa _ (λ _. Safe content o) keep keep w v);
  }

  pub Triple-forth :
      (p q : Text)
      → p ≡ o.source
      → q ≡ o.destination
      → Triple {E = E} content o
          (Safe content o)
          (retrying fa (E.rename_no_replace p q))
          (λ _. Safe content o)
  Triple-forth p q at_a at_b =
      Triple-renamed p q (λ s v. forth-Safe p q s (lawful.rename_acts p q s) at_a at_b v)

  pub Triple-back :
      (p q : Text)
      → p ≡ o.destination
      → q ≡ o.source
      → Triple {E = E} content o
          (Safe content o)
          (retrying fa (E.rename_no_replace p q))
          (λ _. Safe content o)
  Triple-back p q at_b at_a =
      Triple-renamed p q (λ s v. back-Safe p q s (lawful.rename_acts p q s) at_b at_a v)

  pub Triple-publish :
      (p q : Text)
      → p ≢ o.source
      → q ≡ o.destination
      → Triple {E = E} content o
          (Safe content o)
          (retrying fa (E.rename_no_replace p q))
          (λ _. Safe content o)
  Triple-publish p q na at_b =
      Triple-renamed p q (λ s v. publish-Safe p q s (lawful.rename_acts p q s) na at_b v)

-- a safe state, as what an answer says
pub answers-Safe :
    {S A : Type 0} (content : S → Text → Option String) (o : OperationReceipt) (r : IoResult A)
    (s : S)
    → Safe content o s
    → Answer content o (λ _. Safe content o) r s
answers-Safe content o (ok a) s v = v
answers-Safe content o (err e) s v = v
