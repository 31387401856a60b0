-- ===== src/Applier/World.antt =====
-- file_ops.rs: what `FileApplier` stands on, and its actions. The traits `FileSystem` and
-- `LockedFile`, the clock, and the operations that other sessions perform between two calls of the
-- store are parameters; any sequence of results is allowed. Dropping a handle has no result and is left
-- out.
use intern.Prelude.{ℕ, Text, String, Bool, Option, none, some, List}
use intern.Domain.Error.{ErrorCode, InternResult}
use intern.Receipt.{OperationReceipt}
use intern.Retry.Defs.{IoResult, IoError, LockRetry, run_in}
use intern.Store.Db.{Db, Ctx}
use intern.Store.Tx.{Tx}
use intern.Store.Runs.{Op, run_all}

-- `FileIdentity`
pub record FileIdentity : Type 0 where
  pub volume : ℕ
  pub file : ℕ

-- `FileSystem`, and `LockedFile` for its handles. `unique` is the part of a temporary name that
-- `temporary_path` takes from the process, the clock and a counter.
pub record Env : Type 1 where
  pub State : Type 0
  pub Handle : Type 0
  pub exists : Text → State → State × Bool
  pub hash : Text → State → State × IoResult String
  pub same_volume : Text → Text → State → State × IoResult Bool
  pub rename_no_replace : Text → Text → State → State × IoResult (Unit {0})
  pub copy_new_locked : Text → Text → State → State × IoResult Handle
  pub lock_for_delete : Text → State → State × IoResult Handle
  pub handle_hash : Handle → State → State × IoResult String
  pub handle_identity : Handle → State → State × IoResult FileIdentity
  pub handle_delete : Handle → State → State × IoResult (Unit {0})
  pub unique : State → State × Text
  pub now : State → State × ℕ
  pub others : Db → State → State × List (Ctx × Op)

-- `FileApplier`, with the session of its store
pub record FileApplier : Type 0 where
  pub session : String
  pub to_lowercase : Text → Text
  pub to_string_lossy : Text → Text
  pub windows : Bool
  pub lock_retry : LockRetry

-- `InternResult` with the receipt that an error carries; or no result, as of a loop that does not end
pub data Outcome (A : Type 0) : Type 0 where
  ok : A → Outcome A
  err : ErrorCode → Option OperationReceipt → Outcome A
  no_result : Outcome A

pub record World (E : Env) : Type 0 where
  pub state : E.State
  pub db : Db

abbrev pub App : Env → Type 0 → Type 0
App E A = World E → World E × Outcome A

abbrev pub outcome_of : {A : Type 0} → InternResult A → Outcome A
outcome_of (InternResult.ok a) = ok a
outcome_of (InternResult.err e) = err e none

module _ {E : Env} {A : Type 0} where
  unfoldable pub pure : A → App E A
  pure a w = (w, ok a)

  -- an error with no receipt, and one with its receipt
  unfoldable pub fail : ErrorCode → App E A
  fail e w = (w, err e none)

  unfoldable pub fail_with : OperationReceipt → ErrorCode → App E A
  fail_with receipt e w = (w, err e (some receipt))

  unfoldable pub diverge : App E A
  diverge w = (w, no_result)

  -- a call on the file system
  unfoldable pub on_files : (E.State → E.State × A) → App E A
  on_files f w = (record w { state = (f w.state).0 }, ok (f w.state).1)

  -- `self.lock_retry.run(...)`
  unfoldable pub retrying : FileApplier → (E.State → E.State × IoResult A) → App E (IoResult A)
  retrying fa f w = (
    record w { state = (run_in fa.windows fa.lock_retry f w.state).0 },
    ok (run_in fa.windows fa.lock_retry f w.state).1,
  )

  -- `map_err(|_| ...)`, where making the new error may act
  abbrev pub handled : App E A → World E × Outcome A → World E × Outcome A
  handled h (w, ok a) = (w, ok a)
  handled h (w, err e receipt) = h w
  handled h (w, no_result) = (w, no_result)

  unfoldable pub catch : App E A → App E A → App E A
  catch m h w = handled h (m w)

  -- `map_err` on the result of a call, and `?`
  unfoldable pub settle_io : IoResult A → (IoError → App E A) → App E A
  settle_io (IoResult.ok a) h w = (w, ok a)
  settle_io (IoResult.err e) h w = h e w

abbrev pub resume :
    {E : Env} {A B : Type 0} → (A → App E B) → World E × Outcome A → World E × Outcome B
resume k (w, ok a) = k a w
resume k (w, err e receipt) = (w, err e receipt)
resume k (w, no_result) = (w, no_result)

infixl 5 ◌>>=◌ ◌>>◌
unfoldable pub ◌>>=◌ : {E : Env} {A B : Type 0} → App E A → (A → App E B) → App E B
◌>>=◌ m k w = resume k (m w)

unfoldable pub ◌>>◌ : {E : Env} {B : Type 0} → App E (Unit {0}) → App E B → App E B
◌>>◌ m k w = resume (λ _. k) (m w)

unfoldable pub expect : {E : Env} {A : Type 0} → App E (IoResult A) → (IoError → App E A) → App E A
expect m h = do r ← m; settle_io r h

-- `if !test { return Err(...) }`, where making the error may act
unfoldable pub check : {E : Env} → Bool → App E (Unit {0}) → App E (Unit {0})
check Bool.true h w = (w, ok tt)
check Bool.false h w = h w

abbrev pub ctx_at : FileApplier → ℕ → Ctx
ctx_at fa t = record {
  session = fa.session;
  now = t;
  to_lowercase = fa.to_lowercase;
  to_string_lossy = fa.to_string_lossy;
}

-- A call of the store: the clock is read, other sessions may have acted, and the operation runs.
unfoldable pub on_store : {E : Env} {A : Type 0} → FileApplier → (Ctx → Tx A) → App E A
on_store {E} fa m w =
    let (s, t) = E.now w.state in
    let (s', ops) = E.others w.db s in
    let (db', r) = m (ctx_at fa t) (run_all ops w.db) in
    (record { state = s'; db = db' }, outcome_of r)
