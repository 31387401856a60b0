-- ===== src/Applier/Safety/Transfer.antt =====
-- About `transfer`, file_ops.rs: a move from its first check to its end.
use intern.Prelude.{
  ℕ, Text, String, ◌≡◌, ◌≢◌, refl, sym, ◌∙◌, ap, subst, ◌⊎◌, inl, inr, Bool, true, not, Option,
  none, some, is_some,
}
use intern.Receipt.{OperationReceipt, OperationDirection, rename, verified_copy}
use intern.Store.Invariant.Defs.{Inv}
use intern.Store.Journal.{create_receipt}
use intern.Store.Plans.Results.{Like, IsNew, Gives-create}
use intern.Applier.World.{
  Env, FileApplier, FileIdentity, World, Outcome, ok, err, no_result, ctx_at, on_files, on_store,
}
use intern.Applier.Transfer.{Paths, temporary_path, plan, same_volume_transfer}
use intern.Applier.Copy.{cross_volume_transfer}
use intern.Applier.Entry.{transfer_within, transfer_across, transfer}
use intern.Applier.Safety.Laws.{Still, IsLawful}
use intern.Applier.Safety.Rules.{Safe, Post}
use intern.Applier.Safety.Steps.{Arrived}
use intern.Applier.Safety.Rename.{Triple-same_volume_transfer}
use intern.Applier.Safety.Copy.{ApartIfAny}
use intern.Applier.Safety.Finish.{Triple-cross_volume_transfer}
use intern.Applier.Safety.Start.{
  Ends, Starts, Starts-if, Starts-from, Starts-bind, Before, Starts-know, Starts-try, Starts-call,
  Starts-retried, Starts-test, Starts-on_store,
}

-- The content `h` is at one of two paths.
abbrev pub Kept : {S : Type 0} → (S → Text → Option String) → Text → Text → String → S → Type 0
Kept content a b h s = (content s a ≡ some h) ⊎ (content s b ≡ some h)

module _ {E : Env} (content : E.State → Text → Option String) (path_of : E.Handle → Text)
    (a b : Text) (h : String) (lawful : IsLawful E content path_of a b) (fa : FileApplier)
    (plain : fa.to_string_lossy a ≡ a) (plain' : fa.to_string_lossy b ≡ b) where
  -- the document is at its source, and the destination is free
  abbrev Ready : E.State → Type 0
  Ready s = (content s a ≡ some h) × (content s b ≡ none)

  at_receipt :
      (y : OperationReceipt) (s : E.State)
      → y.source ≡ a
      → y.destination ≡ b
      → y.pre_operation_hash ≡ h
      → Safe content y s
      → Kept content a b h s
  at_receipt y s at_a at_b same (inl v) = inl (ap (content s) (sym at_a) ∙ (v ∙ ap some same))
  at_receipt y s at_a at_b same (inr v) = inr (ap (content s) (sym at_b) ∙ (v ∙ ap some same))

  ended :
      (y : OperationReceipt) (out : World E × Outcome OperationReceipt)
      → ((s : E.State) → Safe content y s → Kept content a b h s)
      → ((s : E.State) → Arrived content y s → content s b ≡ some h)
      → Post content y (λ z s. Arrived content y s × Like y z) out
      → Ends (Kept content a b h) (λ _ w. content w.state b ≡ some h) out
  ended y (w, ok z) kept arrived q = arrived w.state q.1.0
  ended y (w, err e r) kept arrived q = kept w.state q.1
  ended y (w, no_result) kept arrived q = kept w.state q.1

  Arrived-at :
      (y : OperationReceipt) (s : E.State)
      → y.destination ≡ b
      → y.pre_operation_hash ≡ h
      → Arrived content y s
      → content s b ≡ some h
  Arrived-at y s at_b same v = ap (content s) (sym at_b) ∙ (v ∙ ap some same)

  -- what a new receipt of this move says
  abbrev OfMove : ℕ → OperationReceipt → OperationReceipt → World E → Type 0
  OfMove k x y w = IsNew k x y w.db × Ready w.state

  IsLawful-at :
      (y : OperationReceipt)
      → y.source ≡ a
      → y.destination ≡ b
      → IsLawful E content path_of y.source y.destination
  IsLawful-at y at_a at_b =
      subst (λ p. IsLawful E content path_of p y.destination) (sym at_a)
        (subst (λ q. IsLawful E content path_of a q) (sym at_b) lawful)

  Ready-Safe :
      (y : OperationReceipt) (s : E.State)
      → y.source ≡ a
      → y.pre_operation_hash ≡ h
      → Ready s
      → Safe content y s
  Ready-Safe y s at_a same v = inl (ap (content s) at_a ∙ (v.0 ∙ ap some (sym same)))

  distinct : (s : E.State) → Ready s → a ≢ b
  distinct s v e = cc (v.0, v.1, ap (content s) e)

  Like-itself : (y : OperationReceipt) → Like y y
  Like-itself y = (refl, (refl, refl, refl, refl, refl, refl))

  Starts-renamed :
      (k : ℕ) (d : OperationDirection) (pre : String) (y : OperationReceipt)
      → pre ≡ h
      → Starts
          (Kept content a b h)
          (OfMove k (plan k d a b none pre rename) y)
          (same_volume_transfer fa y)
          (λ _ w. content w.state b ≡ some h)
  Starts-renamed k d pre y same = record {
    at = λ w p.
        let at_a = p.0.1.0 in
        let at_b = p.0.1.1 in
        let at_h = p.0.1.2 ∙ same in
        ended y (same_volume_transfer fa y w) (λ s. at_receipt y s at_a at_b at_h)
          (λ s. Arrived-at y s at_b at_h)
          ((Triple-same_volume_transfer content path_of y (IsLawful-at y at_a at_b) fa y
              (Like-itself y)).at
            w p.0.0 (Ready-Safe y w.state at_a at_h p.1));
  }

  Apart-at :
      (y : OperationReceipt) (t : Text)
      → y.source ≡ a
      → y.destination ≡ b
      → t ≢ a
      → t ≢ b
      → y.temporary_path ≡ some t
      → ApartIfAny y y.temporary_path
  Apart-at y t at_a at_b na nb named =
      subst (ApartIfAny y) (sym named) ((λ e. na (e ∙ at_a)), (λ e. nb (e ∙ at_b)))

  Starts-copied :
      (k : ℕ) (d : OperationDirection) (pre : String) (t : Text) (identity : FileIdentity)
      (locked : E.Handle) (y : OperationReceipt)
      → pre ≡ h
      → path_of locked ≡ a
      → t ≢ a
      → t ≢ b
      → Starts
          (Kept content a b h)
          (OfMove k (plan k d a b (some t) pre verified_copy) y)
          (cross_volume_transfer fa y identity locked)
          (λ _ w. content w.state b ≡ some h)
  Starts-copied k d pre t identity locked y same at_locked na nb = record {
    at = λ w p.
        let at_a = p.0.1.0 in
        let at_b = p.0.1.1 in
        let at_h = p.0.1.2 ∙ same in
        ended y (cross_volume_transfer fa y identity locked w) (λ s. at_receipt y s at_a at_b at_h)
          (λ s. Arrived-at y s at_b at_h)
          ((Triple-cross_volume_transfer content path_of y (IsLawful-at y at_a at_b) fa y identity
              locked (Like-itself y) (Apart-at y t at_a at_b na nb p.0.2) (at_locked ∙ sym at_a)
              (λ e. distinct w.state p.1 (sym at_a ∙ (e ∙ at_b)))).at
            w p.0.0 (Ready-Safe y w.state at_a at_h p.1));
  }

  Ready-Kept : (s : E.State) → Ready s → Kept content a b h s
  Ready-Kept s v = inl v.0

  Ready-Still : (s s' : E.State) → Still content a b s s' → Ready s → Ready s'
  Ready-Still s s' e v = (e.0 ∙ v.0, e.1 ∙ v.1)

  -- the entry in the journal
  Starts-create :
      (k : ℕ) (x : OperationReceipt)
      → x.source ≡ a
      → x.destination ≡ b
      → Starts
          (Kept content a b h)
          (Before (Kept content a b h) Ready Ready-Kept)
          (on_store {E = E} fa (λ c. create_receipt c k x))
          (OfMove k x)
  Starts-create k x at_a at_b =
      Starts-on_store _ Ready Ready-Kept (IsNew k x) fa _
        (λ s v. Ready-Still _ _ (lawful.now_still s) v)
        (λ db s v. Ready-Still _ _ (lawful.others_still db s) v)
        (λ t. record {
          at = λ db v.
              (Gives-create k x (ctx_at fa t) (ap fa.to_string_lossy at_a ∙ (plain ∙ sym at_a))
                  (ap fa.to_string_lossy at_b ∙ (plain' ∙ sym at_b))).at
                db v.receipt_ids_used;
        })

  one_hash : (s : E.State) (x : String) → content s a ≡ some h → content s a ≡ some x → x ≡ h
  one_hash s x v e = cc (v, e)

  module _ (paths : Paths)
      (fresh : (s : E.State)
        → (temporary_path paths b (E.unique s).1 ≢ a) × (temporary_path paths b (E.unique s).1 ≢ b))
      (k : ℕ) (d : OperationDirection) (expected : String) where
    abbrev Result : OperationReceipt → World E → Type 0
    Result _ w = content w.state b ≡ some h

    -- a part of a name that makes a third path
    abbrev FreshName : Text → Type 0
    FreshName t = (temporary_path paths b t ≢ a) × (temporary_path paths b t ≢ b)

    unique_call :
        Starts
          (Kept content a b h)
          (Before (Kept content a b h) Ready Ready-Kept)
          (on_files {E = E} E.unique)
          (λ t w. Before (Kept content a b h) Ready Ready-Kept w × FreshName t)
    unfolding on_files
    unique_call = record {
      at = λ w p. ((p.0, Ready-Still _ _ (lawful.unique_still w.state) p.1), fresh w.state);
    }

    Starts-transfer_within :
        Starts
          (Kept content a b h)
          (Before (Kept content a b h) Ready Ready-Kept)
          (transfer_within paths fa k d a b expected)
          Result
    unfolding transfer_within
    Starts-transfer_within =
        Starts-try _ Ready Ready-Kept (λ x. x ≡ h) Result _ _ _
          (Starts-retried _ Ready Ready-Kept _ fa _
            (λ s v. Ready-Still _ _ (lawful.hash_still a s) v)
            (λ s x v e. one_hash s x v.0 (lawful.hash_says a s x e)))
          λ pre same. Starts-test _ Ready Ready-Kept Result _ _ _ λ matches.
            Starts-bind _ _ (OfMove k (plan k d a b none pre rename)) Result _ _
              (Starts-create k _ refl refl) (λ y. Starts-renamed k d pre y same)

    Starts-transfer_across :
        Starts
          (Kept content a b h)
          (Before (Kept content a b h) Ready Ready-Kept)
          (transfer_across paths fa k d a b expected)
          Result
    unfolding transfer_across
    Starts-transfer_across =
        Starts-try _ Ready Ready-Kept (λ l. path_of l ≡ a) Result _ _ _
          (Starts-retried _ Ready Ready-Kept _ fa _
            (λ s v. Ready-Still _ _ (lawful.lock_still a s) v)
            (λ s l v e. lawful.lock_says a s l e))
          λ locked at_a.
            Starts-try _ Ready Ready-Kept (λ _. Unit {0}) Result _ _ _
              (Starts-call _ Ready Ready-Kept _ _
                (λ s v. Ready-Still _ _ (lawful.identity_still locked s) v) (λ s i v e. tt))
              λ identity u.
                Starts-try _ Ready Ready-Kept (λ x. x ≡ h) Result _ _ _
                  (Starts-call _ Ready Ready-Kept _ _
                    (λ s v. Ready-Still _ _ (lawful.handle_hash_still locked s) v)
                    (λ s x v e.
                      one_hash s x v.0
                        (ap (content s) (sym at_a) ∙ lawful.handle_hash_says locked s x e)))
                  λ pre same. Starts-test _ Ready Ready-Kept Result _ _ _ λ matches.
                    Starts-bind _ _
                      (λ t w. Before (Kept content a b h) Ready Ready-Kept w × FreshName t) Result _
                      _ unique_call
                      λ t. Starts-know _ Ready Ready-Kept FreshName Result t _ λ apart.
                        Starts-bind _ _
                          (OfMove k
                            (plan k d a b (some (temporary_path paths b t)) pre verified_copy))
                          Result _ _ (Starts-create k _ refl refl)
                          (λ y. Starts-copied k d pre _ identity locked y same at_a apart.0 apart.1)

    -- what is known once it was looked at whether the destination is occupied
    abbrev Looked : Bool → E.State → Type 0
    Looked occupied s = (content s a ≡ some h) × (occupied ≡ is_some (content s b))

    free_if :
        (o : Option String) (occupied : Bool)
        → occupied ≡ is_some o
        → not occupied ≡ true
        → o ≡ none
    free_if none occupied e f = refl
    free_if (some x) occupied e f = cc (e, f)

    Looked-Kept : (occupied : Bool) (s : E.State) → Looked occupied s → Kept content a b h s
    Looked-Kept occupied s v = inl v.0

    Starts-Looked :
        Starts
          (Kept content a b h)
          (λ w. Inv w.db × (content w.state a ≡ some h))
          (on_files {E = E} (E.exists b))
          (λ occupied. Before (Kept content a b h) (Looked occupied) (Looked-Kept occupied))
    unfolding on_files
    Starts-Looked = record {
      at = λ w p. (
        p.0,
        (
          (lawful.exists_still b w.state).0 ∙ p.1,
          lawful.exists_says b w.state ∙ ap is_some (sym (lawful.exists_still b w.state).1),
        ),
      );
    }

    pub Starts-transfer :
        Starts
          (Kept content a b h)
          (λ w. Inv w.db × (content w.state a ≡ some h))
          (transfer paths fa k d a b expected)
          Result
    unfolding transfer
    Starts-transfer = Starts-bind _ _ _ Result _ _ Starts-Looked λ occupied.
        Starts-test _ (Looked occupied) (Looked-Kept occupied) Result _ _ _ λ free.
          Starts-from _ _ _ Result _ (λ w p. (p.0, (p.1.0, free_if _ occupied p.1.1 free)))
            (Starts-try _ Ready Ready-Kept (λ _. Unit {0}) Result _ _ _
              (Starts-retried _ Ready Ready-Kept _ fa _
                (λ s v. Ready-Still _ _ (lawful.same_volume_still a b s) v) (λ s x v e. tt))
              λ same u. Starts-if _ _ same _ _ Result Starts-transfer_within Starts-transfer_across)
