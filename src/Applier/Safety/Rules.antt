-- ===== src/Applier/Safety/Rules.antt =====
-- Actions that may not lose a document: what holds of the two paths of a move before an action, and
-- after it. Whatever way it ends, the journal keeps the plan of the move.
use intern.Prelude.{
  Text, String, ◌≡◌, refl, sym, subst, ◌⊎◌, Bool, true, false, Option, some, if◌then◌else◌,
}
use intern.Receipt.{OperationReceipt}
use intern.Retry.Defs.{IoResult, run_in}
use intern.Retry.Stateful.{run_in-keeps}
use intern.Store.Plans.{Planned}
use intern.Applier.World.{
  Env, FileApplier, World, Outcome, ok, err, no_result, App, pure, on_files, handled, catch,
}
use intern.Applier.Safety.Laws.{Still}

-- the content that was hashed before the move is at one of its two paths
abbrev pub Safe : {S : Type 0} → (S → Text → Option String) → OperationReceipt → S → Type 0
Safe content o s =
    (content s o.source ≡ some o.pre_operation_hash)
    ⊎ (content s o.destination ≡ some o.pre_operation_hash)

-- a property of states that only the two paths decide, and that is safe
pub record Firm {S : Type 0} (content : S → Text → Option String) (o : OperationReceipt)
    (F : S → Type 0) : Type 0 where
  pub still : (s s' : S) → Still content o.source o.destination s s' → F s → F s'
  pub safe : (s : S) → F s → Safe content o s

-- what an answer of the file system says, where an error says that the move is safe
abbrev pub Answer :
    {S A : Type 0}
    → (S → Text → Option String)
    → OperationReceipt
    → (A → S → Type 0)
    → IoResult A
    → S
    → Type 0
Answer content o Q (IoResult.ok a) s = Q a s
Answer content o Q (IoResult.err e) s = Safe content o s

module _ {E : Env} {A : Type 0} (content : E.State → Text → Option String)
    (o : OperationReceipt) where
  abbrev pub Post : (A → E.State → Type 0) → World E × Outcome A → Type 0
  Post Q (w, ok a) = Planned o w.db × Q a w.state
  Post Q (w, err e r) = Planned o w.db × Safe content o w.state
  Post Q (w, no_result) = Planned o w.db × Safe content o w.state

  pub record Triple (F : E.State → Type 0) (m : App E A) (Q : A → E.State → Type 0) : Type 0 where
    pub at : (w : World E) → Planned o w.db → F w.state → Post Q (m w)

  -- an action that ends in an error, from a safe state in a safe state
  abbrev pub Stops : App E A → Type 0
  Stops m = Triple (Safe content o) m (λ _ _. ⊥)

  module _ (F : E.State → Type 0) where
    pub Triple-pure : (a : A) → Triple F (pure a) (λ x s. F s × (x ≡ a))
    unfolding pure
    Triple-pure a = record { at = λ w p v. (p, (v, refl)) }

    pub Triple-on_files :
        (f : E.State → E.State × A) (Q : A → E.State → Type 0)
        → ((s : E.State) → F s → Q (f s).1 (f s).0)
        → Triple F (on_files f) Q
    unfolding on_files
    Triple-on_files f Q step = record { at = λ w p v. (p, step w.state v) }

    pub Triple-if :
        (b : Bool) (m n : App E A) (Q : A → E.State → Type 0)
        → Triple F m Q
        → Triple F n Q
        → Triple F (if b then m else n) Q
    Triple-if true m n Q km kn = km
    Triple-if false m n Q km kn = kn

    -- a fact that the paths do not decide
    pub Triple-know :
        (G : Type 0) (m : App E A) (Q : A → E.State → Type 0)
        → (G → Triple F m Q)
        → Triple (λ s. F s × G) m Q
    Triple-know G m Q k = record { at = λ w p v. (k v.1).at w p v.0 }

    pub Triple-from :
        (F' : E.State → Type 0) (m : App E A) (Q : A → E.State → Type 0)
        → ((s : E.State) → F' s → F s)
        → Triple F m Q
        → Triple F' m Q
    Triple-from F' m Q weaker k = record { at = λ w p v. k.at w p (weaker w.state v) }

    handled-Post :
        (h : App E A) (Q : A → E.State → Type 0) (out : World E × Outcome A)
        → Triple (Safe content o) h Q
        → Post Q out
        → Post Q (handled h out)
    handled-Post h Q (w, ok a) kh q = q
    handled-Post h Q (w, err e r) kh q = kh.at w q.0 q.1
    handled-Post h Q (w, no_result) kh q = q

    pub Triple-catch :
        (m h : App E A) (Q : A → E.State → Type 0)
        → Triple F m Q
        → Triple (Safe content o) h Q
        → Triple F (catch m h) Q
    unfolding catch
    Triple-catch m h Q km kh = record { at = λ w p v. handled-Post h Q (m w) kh (km.at w p v) }

    pub retried_from :
        (fa : FileApplier) (f : E.State → E.State × IoResult A) (Q : IoResult A → E.State → Type 0)
        → ((s : E.State) → F s → F (f s).0)
        → ((s : E.State) → F s → Q (f s).1 (f s).0)
        → (w : World E) → F w.state
        → Q
            (run_in fa.windows fa.lock_retry f w.state).1
            (run_in fa.windows fa.lock_retry f w.state).0
    retried_from fa f Q keep step w v =
        let (last, (at_last, same)) = run_in-keeps F fa.windows fa.lock_retry f keep w.state v in
        subst (λ out. Q out.1 out.0) (sym same) (step last at_last)
