-- ===== src/Retry/Defs.antt =====
-- file_ops.rs: `is_transient_lock` and `LockRetry`. A `Duration` is its number of nanoseconds. The
-- operation that is tried is a function from the number of the call, counted from zero, to the
-- call's result, since a call may find the file in another state than the one before.
use intern.Prelude.{
  ℕ, zero, suc, ◌+◌, ◌*◌, ◌-◌, ◌^◌, Bool, true, false, Option, none, some, List, [], ◌∷◌, leb, ◌==◌,
  ◌||◌, if◌then◌else◌,
}

-- `io::Error`, of which only the system's code is read, and whether its kind is `AlreadyExists`
pub record IoError : Type 0 where
  pub raw_os_error : Option ℕ
  pub already_exists : Bool

-- `io::Result`
pub data IoResult {ℓ} (A : Type ℓ) : Type ℓ where
  ok : A → IoResult A
  err : IoError → IoResult A

abbrev pub is_lock_code : Option ℕ → Bool
is_lock_code none = false
is_lock_code (some code) = code == 32 || code == 33

-- The two definitions of `is_transient_lock`: the first one with `cfg(windows)`.
unfoldable pub is_transient_lock : Bool → IoError → Bool
is_transient_lock true error = is_lock_code error.raw_os_error
is_transient_lock false error = false

abbrev pub is_transient {ℓ} : {A : Type ℓ} → Bool → IoResult A → Bool
is_transient windows (ok a) = false
is_transient windows (err error) = is_transient_lock windows error

pub record LockRetry : Type 0 where
  pub attempts : ℕ
  pub backoff : ℕ

-- five attempts from 200 ms
unfoldable pub default : LockRetry
default = record { attempts = 5; backoff = 200000000 }

unfoldable pub immediate : LockRetry
immediate = record { attempts = 1; backoff = 0 }

-- `Duration::MAX`
abbrev pub duration_max : ℕ
duration_max = (2 ^ 64 - 1) * 1000000000 + 999999999

-- `backoff.saturating_mul(2)`
unfoldable pub doubled : ℕ → ℕ
doubled backoff = if leb (backoff * 2) duration_max then backoff * 2 else duration_max

-- what `run` returns, with the number of the last call, from zero, and the waits between the calls
pub record Run {ℓ} (A : Type ℓ) : Type ℓ where
  pub result : IoResult A
  pub last_call : ℕ
  pub waits : List ℕ

-- `if !backoff.is_zero() { thread::sleep(backoff) }`
abbrev pub slept : ℕ → List ℕ → List ℕ
slept backoff waits = if backoff == 0 then waits else backoff ∷ waits

-- the loop with `left` turns left, before the call `k`
unfoldable pub turns {ℓ} : {A : Type ℓ} → Bool → (ℕ → IoResult A) → ℕ → ℕ → ℕ → Run A
turns windows operation zero backoff k = record { result = operation k; last_call = k; waits = [] }
turns windows operation (suc left) backoff k =
    let rest = turns windows operation left (doubled backoff) (suc k) in
    if is_transient windows (operation k)
    then record rest { waits = slept backoff rest.waits }
    else record { result = operation k; last_call = k; waits = [] }

-- `attempts.max(1)`
abbrev pub attempts_made : LockRetry → ℕ
attempts_made policy = if leb 1 policy.attempts then policy.attempts else 1

unfoldable pub run {ℓ} : {A : Type ℓ} → Bool → LockRetry → (ℕ → IoResult A) → Run A
run windows policy operation = turns windows operation (attempts_made policy - 1) policy.backoff 0

-- The same loop where a call finds the world in a state, and leaves it in another.
unfoldable pub turns_in {ℓ κ} :
    {S : Type ℓ} {A : Type κ} → Bool → (S → S × IoResult A) → ℕ → S → S × IoResult A
turns_in windows operation zero s = operation s
turns_in windows operation (suc left) s = elim (is_transient windows (operation s).1) [
  | true ↦ turns_in windows operation left (operation s).0
  | false ↦ operation s
]

unfoldable pub run_in {ℓ κ} :
    {S : Type ℓ} {A : Type κ} → Bool → LockRetry → (S → S × IoResult A) → S → S × IoResult A
run_in windows policy operation = turns_in windows operation (attempts_made policy - 1)
