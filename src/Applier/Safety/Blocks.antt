-- ===== src/Applier/Safety/Blocks.antt =====
-- The blocks of an action that may not lose a document: calls with their handlers, tests, retries and
-- calls of the store.
use intern.Prelude.{Text, String, ◌≡◌, refl, Bool, true, false, Option}
use intern.Domain.Error.{InternResult}
use intern.Domain.Error
use intern.Receipt.{OperationReceipt}
use intern.Retry.Defs.{IoError, IoResult}
use intern.Store.Db.{Db, Ctx}
use intern.Store.Tx.{Tx}
use intern.Store.Runs.{run_all, run_all-keeps}
use intern.Store.Plans.{Planned, Leaves}
use intern.Store.Plans.Operations.{run-Planned}
use intern.Store.Plans.Results.{Given, Gives}
use intern.Applier.World.{
  Env, FileApplier, World, Outcome, ok, err, no_result, outcome_of, App, on_files, retrying,
  settle_io, resume, ◌>>=◌, ◌>>◌, expect, check, ctx_at, on_store,
}
use intern.Applier.Safety.Laws.{IsLawful}
use intern.Applier.Safety.Rules.{
  Safe, Firm, Answer, Post, Triple, Stops, Triple-on_files, retried_from,
}

module _ {E : Env} {A B : Type 0} (content : E.State → Text → Option String) (o : OperationReceipt)
    (F : E.State → Type 0) (Q : A → E.State → Type 0) (R : B → E.State → Type 0) where
  resume-Post :
      (k : A → App E B) (out : World E × Outcome A)
      → ((a : A) → Triple content o (Q a) (k a) R)
      → Post content o Q out
      → Post content o R (resume k out)
  resume-Post k (w, ok a) kk q = (kk a).at w q.0 q.1
  resume-Post k (w, err e r) kk q = q
  resume-Post k (w, no_result) kk q = q

  pub Triple-bind :
      (m : App E A) (k : A → App E B)
      → Triple content o F m Q
      → ((a : A) → Triple content o (Q a) (k a) R)
      → Triple content o F (m >>= k) R
  unfolding ◌>>=◌
  Triple-bind m k km kk = record { at = λ w p v. resume-Post k (m w) kk (km.at w p v) }

module _ {E : Env} {B : Type 0} (content : E.State → Text → Option String) (o : OperationReceipt)
    (F G : E.State → Type 0) (R : B → E.State → Type 0) where
  pub Triple-then :
      (m : App E (Unit {0})) (k : App E B)
      → Triple content o F m (λ _. G)
      → Triple content o G k R
      → Triple content o F (m >> k) R
  unfolding ◌>>◌
  Triple-then m k km kk = record {
    at = λ w p v. resume-Post content o F (λ _. G) R (λ _. k) (m w) (λ _. kk) (km.at w p v);
  }

module _ {E : Env} {B : Type 0} (content : E.State → Text → Option String) (o : OperationReceipt)
    (F : E.State → Type 0) (R : B → E.State → Type 0) where
  stopped-Post :
      (Q : B → E.State → Type 0) (out : World E × Outcome B)
      → Post content o (λ _ _. ⊥) out
      → Post content o Q out
  stopped-Post Q (w, ok a) q = absurd q.1
  stopped-Post Q (w, err e r) q = q
  stopped-Post Q (w, no_result) q = q

  -- an action that ends in an error, for any result
  pub Triple-stops :
      (m : App E B)
      → ((s : E.State) → F s → Safe content o s)
      → Stops content o m
      → Triple content o F m R
  Triple-stops m safe k = record { at = λ w p v. stopped-Post R (m w) (k.at w p (safe w.state v)) }

Answer-of :
    {S A : Type 0} (content : S → Text → Option String) (o : OperationReceipt) (Q : A → S → Type 0)
    (r : IoResult A) (s : S)
    → Safe content o s
    → ((a : A) → r ≡ IoResult.ok a → Q a s)
    → Answer content o Q r s
Answer-of content o Q (IoResult.ok a) s v says = says a refl
Answer-of content o Q (IoResult.err e) s v says = v

module _ {E : Env} {A : Type 0} (content : E.State → Text → Option String) (o : OperationReceipt)
    (F : E.State → Type 0) (Q : A → E.State → Type 0) where
  settle-Triple :
      (h : IoError → App E A) (r : IoResult A)
      → ((e : IoError) → Stops content o (h e))
      → Triple content o (Answer content o Q r) (settle_io r h) Q
  unfolding settle_io
  settle-Triple h (IoResult.ok a) kh = record { at = λ w p v. (p, v) }
  settle-Triple h (IoResult.err e) kh = record {
    at = λ w p v. stopped-Post content o F Q Q (h e w) ((kh e).at w p v);
  }

  pub Triple-expect :
      (m : App E (IoResult A)) (h : IoError → App E A)
      → Triple content o F m (Answer content o Q)
      → ((e : IoError) → Stops content o (h e))
      → Triple content o F (expect m h) Q
  unfolding expect
  Triple-expect m h km kh =
      Triple-bind content o F (Answer content o Q) Q m _ km (λ r. settle-Triple h r kh)

  pub Triple-call :
      (f : E.State → E.State × IoResult A)
      → ((s : E.State) → F s → Safe content o (f s).0)
      → ((s : E.State) (a : A) → F s → (f s).1 ≡ IoResult.ok a → Q a (f s).0)
      → Triple content o F (on_files {E = E} f) (Answer content o Q)
  Triple-call f safe says =
      Triple-on_files content o F f _
        (λ s v. Answer-of content o Q (f s).1 (f s).0 (safe s v) (λ a e. says s a v e))

  pub Triple-retried :
      (fa : FileApplier) (f : E.State → E.State × IoResult A)
      → ((s : E.State) → F s → F (f s).0)
      → ((s : E.State) → F s → Safe content o s)
      → ((s : E.State) (a : A) → F s → (f s).1 ≡ IoResult.ok a → Q a (f s).0)
      → Triple content o F (retrying {E = E} fa f) (Answer content o Q)
  unfolding retrying
  Triple-retried fa f keep safe says = record {
    at = λ w p v. (
      p,
      retried_from content o F fa f (Answer content o Q) keep
          (λ s u.
            Answer-of content o Q (f s).1 (f s).0 (safe (f s).0 (keep s u)) (λ a e. says s a u e))
          w v,
    );
  }

module _ {E : Env} {B : Type 0} (content : E.State → Text → Option String) (o : OperationReceipt)
    (F : E.State → Type 0) (R : B → E.State → Type 0) where
  pub Triple-test :
      (b : Bool) (h : App E (Unit {0})) (k : App E B)
      → ((s : E.State) → F s → Safe content o s)
      → Stops content o h
      → (b ≡ true → Triple content o F k R)
      → Triple content o F (check b h >> k) R
  unfolding check
  Triple-test true h k safe kh kk =
      Triple-then content o F F R _ k (record { at = λ w p v. (p, v) }) (kk refl)
  Triple-test false h k safe kh kk =
      Triple-then content o F (λ _. ⊥) R _ k (Triple-stops content o F (λ _ _. ⊥) h safe kh)
        (record { at = λ w p v. absurd v })

  -- a call with its handler, before the rest
  pub Triple-try :
      {A : Type 0} (Q : A → E.State → Type 0) (m : App E (IoResult A)) (h : IoError → App E A)
      (k : A → App E B)
      → Triple content o F m (Answer content o Q)
      → ((e : IoError) → Stops content o (h e))
      → ((a : A) → Triple content o (Q a) (k a) R)
      → Triple content o F (expect m h >>= k) R
  Triple-try Q m h k km kh kk =
      Triple-bind content o F Q R _ k (Triple-expect content o F Q m h km kh) kk

module _ {E : Env} {B : Type 0} (content : E.State → Text → Option String) (o : OperationReceipt)
    (F G : E.State → Type 0) (R : B → E.State → Type 0) where
  -- a call with no result, and its handler, before the rest
  pub Triple-tried :
      (m : App E (IoResult (Unit {0}))) (h : IoError → App E (Unit {0})) (k : App E B)
      → Triple content o F m (Answer content o (λ _. G))
      → ((e : IoError) → Stops content o (h e))
      → Triple content o G k R
      → Triple content o F (expect m h >> k) R
  Triple-tried m h k km kh kk =
      Triple-then content o F G R _ k (Triple-expect content o F (λ _. G) m h km kh) kk

-- A call of the store: the clock and the other sessions leave the two paths alone.
module _ {E : Env} {A : Type 0} (content : E.State → Text → Option String)
    (path_of : E.Handle → Text) (o : OperationReceipt)
    (lawful : IsLawful E content path_of o.source o.destination) (F : E.State → Type 0)
    (firm : Firm content o F) where
  stored-Post :
      (s : E.State) (G : A → Type 0) (out : Db × InternResult A)
      → F s
      → Planned o out.0
      → Given (λ a _. G a) out
      → Post {E = E} content o
          (λ a t. F t × G a)
          (record { state = s; db = out.0 }, outcome_of out.1)
  stored-Post s G (db, Error.ok a) v p g = (p, (v, g))
  stored-Post s G (db, Error.err e) v p g = (p, firm.safe s v)

  pub Triple-on_store :
      (fa : FileApplier) (m : Ctx → Tx A) (G : A → Type 0)
      → ((c : Ctx) → Leaves o (m c))
      → ((c : Ctx) → Gives (Planned o) (m c) (λ a _. G a))
      → Triple content o F (on_store {E = E} fa m) (λ a s. F s × G a)
  unfolding on_store
  Triple-on_store fa m G leaves gives = record {
    at = λ w p v.
        let (s, t) = E.now w.state in
        let (s', ops) = E.others w.db s in
        let db = run_all ops w.db in
        let p' = run_all-keeps (Planned o) (run-Planned o) ops w.db p in
        let c = ctx_at fa t in
        stored-Post s' G (m c db)
          (firm.still s s' (lawful.others_still w.db s)
            (firm.still w.state s (lawful.now_still w.state) v))
          ((leaves c).at db p') ((gives c).at db p');
  }

module _ {E : Env} {A : Type 0} (content : E.State → Text → Option String) (o : OperationReceipt)
    (F : E.State → Type 0) (Q R : A → E.State → Type 0) where
  to-Post :
      (out : World E × Outcome A)
      → ((a : A) (s : E.State) → Q a s → R a s)
      → Post content o Q out
      → Post content o R out
  to-Post (w, ok a) weaker q = (q.0, weaker a w.state q.1)
  to-Post (w, err e r) weaker q = q
  to-Post (w, no_result) weaker q = q

  pub Triple-to :
      (m : App E A)
      → ((a : A) (s : E.State) → Q a s → R a s)
      → Triple content o F m Q
      → Triple content o F m R
  Triple-to m weaker k = record { at = λ w p v. to-Post (m w) weaker (k.at w p v) }
