-- ===== src/Applier/Safety/Start.antt =====
-- About `transfer`, file_ops.rs: the part of a move before its journal entry.
use intern.Prelude.{ℕ, ◌≡◌, refl, sym, ◌∙◌, ap, subst, Bool, true, false, if◌then◌else◌}
use intern.Domain.Error.{ErrorCode, InternResult}
use intern.Domain.Error
use intern.Retry.Defs.{IoError, IoResult}
use intern.Retry.Stateful.{run_in-keeps}
use intern.Store.Db.{Db, Ctx}
use intern.Store.Tx.{Tx}
use intern.Store.Runs.{run_all, run_all-keeps}
use intern.Store.Invariant.Defs.{Inv}
use intern.Store.Invariant.Reachable.{run-Inv}
use intern.Store.Plans.Results.{Given, Gives}
use intern.Applier.World.{
  Env, FileApplier, World, Outcome, ok, err, no_result, outcome_of, App, fail, on_files, retrying,
  settle_io, resume, ◌>>=◌, ◌>>◌, expect, check, ctx_at, on_store,
}

module _ {E : Env} {A : Type 0} (L : E.State → Type 0) where
  abbrev pub Ends : (A → World E → Type 0) → World E × Outcome A → Type 0
  Ends Q (w, ok a) = Q a w
  Ends Q (w, err e r) = L w.state
  Ends Q (w, no_result) = L w.state

  -- from `P`, a result satisfies `Q`, and any other end leaves `L`
  pub record Starts (P : World E → Type 0) (m : App E A) (Q : A → World E → Type 0) : Type 0 where
    pub at : (w : World E) → P w → Ends Q (m w)

  pub Starts-if :
      (P : World E → Type 0) (b : Bool) (m n : App E A) (Q : A → World E → Type 0)
      → Starts P m Q
      → Starts P n Q
      → Starts P (if b then m else n) Q
  Starts-if P true m n Q km kn = km
  Starts-if P false m n Q km kn = kn

  pub Starts-from :
      (P P' : World E → Type 0) (Q : A → World E → Type 0) (m : App E A)
      → ((w : World E) → P' w → P w)
      → Starts P m Q
      → Starts P' m Q
  Starts-from P P' Q m weaker k = record { at = λ w p. k.at w (weaker w p) }

module _ {E : Env} {A B : Type 0} (L : E.State → Type 0) (P : World E → Type 0)
    (Q : A → World E → Type 0) (R : B → World E → Type 0) where
  resume-Ends :
      (k : A → App E B) (out : World E × Outcome A)
      → ((a : A) → Starts L (Q a) (k a) R)
      → Ends L Q out
      → Ends L R (resume k out)
  resume-Ends k (w, ok a) kk q = (kk a).at w q
  resume-Ends k (w, err e r) kk q = q
  resume-Ends k (w, no_result) kk q = q

  pub Starts-bind :
      (m : App E A) (k : A → App E B)
      → Starts L P m Q
      → ((a : A) → Starts L (Q a) (k a) R)
      → Starts L P (m >>= k) R
  unfolding ◌>>=◌
  Starts-bind m k km kk = record { at = λ w p. resume-Ends k (m w) kk (km.at w p) }

stored-Ends :
    (E : Env) (L F : E.State → Type 0)
    → ((s : E.State) → F s → L s)
    → {A : Type 0} (G : A → Db → Type 0) (s : E.State) (out : Db × InternResult A) → F s
    → Given G out
    → Ends {E = E} L
        (λ a w. G a w.db × F w.state)
        (record { state = s; db = out.0 }, outcome_of out.1)
stored-Ends E L F safe G s (db, Error.ok a) v g = (g, v)
stored-Ends E L F safe G s (db, Error.err e) v g = safe s v

-- The states before the move: the content `h` is at `a`, and `F` says what else is known; other
-- sessions keep the invariant.
module _ {E : Env} (L F : E.State → Type 0) (safe : (s : E.State) → F s → L s) where
  abbrev pub Before : World E → Type 0
  Before w = Inv w.db × F w.state

  module _ {A : Type 0} (G : A → Type 0) where
    pub Starts-know :
        {B : Type 0} (R : B → World E → Type 0) (a : A) (k : App E B)
        → (G a → Starts L Before k R)
        → Starts L (λ w. Before w × G a) k R
    Starts-know R a k kk = record { at = λ w p. (kk p.1).at w p.0 }

    settled :
        (c : IoError → ErrorCode) (r : IoResult A)
        → Starts L
            (λ w. Before w × ((a : A) → r ≡ IoResult.ok a → G a))
            (settle_io r (λ e. fail (c e)))
            (λ a w. Before w × G a)
    unfolding settle_io fail
    settled c (IoResult.ok a) = record { at = λ w p. (p.0, p.1 a refl) }
    settled c (IoResult.err e) = record { at = λ w p. safe w.state p.0.1 }

    -- a call of the file system, where any error ends the move
    pub Starts-try :
        {B : Type 0} (R : B → World E → Type 0) (m : App E (IoResult A)) (c : IoError → ErrorCode)
        (k : A → App E B)
        → Starts L Before m (λ r w. Before w × ((a : A) → r ≡ IoResult.ok a → G a))
        → ((a : A) → G a → Starts L Before (k a) R)
        → Starts L Before (expect m (λ e. fail (c e)) >>= k) R
    unfolding expect
    Starts-try R m c k km kk =
        Starts-bind L _ _ _ _ k (Starts-bind L _ _ _ m _ km (settled c))
          (λ a. Starts-know R a (k a) (kk a))

    pub Starts-call :
        (f : E.State → E.State × IoResult A)
        → ((s : E.State) → F s → F (f s).0)
        → ((s : E.State) (a : A) → F s → (f s).1 ≡ IoResult.ok a → G a)
        → Starts L Before (on_files f) (λ r w. Before w × ((a : A) → r ≡ IoResult.ok a → G a))
    unfolding on_files
    Starts-call f keep says = record {
      at = λ w p. ((p.0, keep w.state p.1), (λ a e. says w.state a p.1 e));
    }

    pub Starts-retried :
        (fa : FileApplier) (f : E.State → E.State × IoResult A)
        → ((s : E.State) → F s → F (f s).0)
        → ((s : E.State) (a : A) → F s → (f s).1 ≡ IoResult.ok a → G a)
        → Starts L Before (retrying fa f) (λ r w. Before w × ((a : A) → r ≡ IoResult.ok a → G a))
    unfolding retrying
    Starts-retried fa f keep says = record {
      at = λ w p.
          let (last, (at_last, same)) =
            run_in-keeps F fa.windows fa.lock_retry f keep w.state p.1 in
          (
            (p.0, subst (λ out. F out.0) (sym same) (keep last at_last)),
            (λ a e. says last a at_last (sym (ap (λ out. out.1) same) ∙ e)),
          );
    }

  pub Starts-test :
      {B : Type 0} (R : B → World E → Type 0) (b : Bool) (e : ErrorCode) (k : App E B)
      → (b ≡ true → Starts L Before k R)
      → Starts L Before (check b (fail e) >> k) R
  unfolding check fail ◌>>◌
  Starts-test R true e k kk = record { at = (kk refl).at }
  Starts-test R false e k kk = record { at = λ w p. safe w.state p.1 }

  -- A call of the store, where an error ends the move, and other sessions keep the invariant.
  module _ {A : Type 0} (G : A → Db → Type 0) where
    pub Starts-on_store :
        (fa : FileApplier) (m : Ctx → Tx A)
        → ((s : E.State) → F s → F (E.now s).0)
        → ((db : Db) (s : E.State) → F s → F (E.others db s).0)
        → ((t : ℕ) → Gives Inv (m (ctx_at fa t)) G)
        → Starts L Before (on_store {E = E} fa m) (λ a w. G a w.db × F w.state)
    unfolding on_store
    Starts-on_store fa m now others gives = record {
      at = λ w p.
          let (s, t) = E.now w.state in
          let (s', ops) = E.others w.db s in
          let db = run_all ops w.db in
          let c = ctx_at fa t in
          stored-Ends E L F safe G s' (m c db) (others w.db s (now w.state p.1))
            ((gives t).at db (run_all-keeps Inv run-Inv ops w.db p.0));
    }
