-- ===== src/Retry/Laws.antt =====
-- A lock is waited out within the policy's bounds, and the answer is the last call's.
use intern.Prelude.{
  ℕ, zero, suc, ◌+◌, ◌-◌, ◌≤◌, ◌<◌, ◌≡◌, refl, Bool, true, false, ◌⊎◌, inl, inr, List, [], ◌∷◌,
  arith, Bool-cases,
}
use intern.Retry.Defs.{
  IoResult, is_transient, LockRetry, default, doubled, Run, slept, turns, attempts_made, run,
}

-- the calls from `k` to the answer: the answer is the last one's, every one before it met a lock, and
-- it met none itself unless all `left` further turns were taken
abbrev Answered {ℓ} : {A : Type ℓ} → Bool → (ℕ → IoResult A) → ℕ → ℕ → Run A → Type ℓ
Answered windows operation left k out =
    (k ≤ out.last_call)
    × (out.last_call ≤ left + k)
    × (out.result ≡ operation out.last_call)
    × ((j : ℕ) → k ≤ j → j < out.last_call → is_transient windows (operation j) ≡ true)
    × ((out.last_call ≡ left + k) ⊎ (is_transient windows out.result ≡ false))

first_or_later : (k j : ℕ) → k ≤ j → (j ≡ k) ⊎ (suc k ≤ j)
first_or_later k j h = omega (arith, h)

turns-Answered {ℓ} :
    {A : Type ℓ} (windows : Bool) (operation : ℕ → IoResult A) (left backoff k : ℕ)
    → Answered windows operation left k (turns windows operation left backoff k)
unfolding turns
turns-Answered windows operation zero backoff k =
    (omega arith, omega arith, refl, (λ j h h'. absurd (omega (arith, h, h'))), inl (omega arith))
turns-Answered windows operation (suc left) backoff k =
    elim (Bool-cases (is_transient windows (operation k))) [
      | inr settled ↦
          rw settled
            (omega arith, omega arith, refl, (λ j h h'. absurd (omega (arith, h, h'))), inr settled)
      | inl locked ↦
          let (later, bounded, last, before, ends) =
            turns-Answered windows operation left (doubled backoff) (suc k) in
          rw locked (
            omega (arith, later),
            omega (arith, bounded),
            last,
            (λ j h h'. elim (first_or_later k j h) [
              | inl same ↦ rw same locked
              | inr after ↦ before j after h'
            ]),
            elim ends [ inl all ↦ inl (omega (arith, all)) | inr settled ↦ inr settled ],
          )
    ]

-- `LockRetry::run` makes at least one call and at most `attempts` of them, one if `attempts` is zero.
-- It returns the result of the last call; every call before it failed on another process's lock; and
-- the last one did not, unless all attempts were made.
pub run_lem {ℓ} :
    {A : Type ℓ} (windows : Bool) (policy : LockRetry) (operation : ℕ → IoResult A)
    → (suc (run windows policy operation).last_call ≤ attempts_made policy)
      × ((run windows policy operation).result ≡ operation (run windows policy operation).last_call)
      × ((j : ℕ)
          → j < (run windows policy operation).last_call
          → is_transient windows (operation j) ≡ true)
      × ((suc (run windows policy operation).last_call ≡ attempts_made policy)
          ⊎ (is_transient windows (run windows policy operation).result ≡ false))
unfolding run
run_lem windows policy operation =
    let (_, bounded, result, before, ends) =
      turns-Answered windows operation (attempts_made policy - 1) policy.backoff 0 in
    (
      ground (arith, bounded),
      result,
      (λ j h. before j (omega arith) h),
      elim ends [ inl all ↦ inl (ground (arith, all)) | inr settled ↦ inr settled ],
    )

abbrev pub sum : List ℕ → ℕ
sum [] = 0
sum (n ∷ ns) = n + sum ns

-- how long `left` more turns may wait
abbrev longest : ℕ → ℕ → ℕ
longest zero backoff = 0
longest (suc left) backoff = backoff + longest left (doubled backoff)

sum-slept : (backoff : ℕ) (waits : List ℕ) → sum (slept backoff waits) ≡ backoff + sum waits
sum-slept backoff waits = ground arith

turns_wait {ℓ} :
    {A : Type ℓ} (windows : Bool) (operation : ℕ → IoResult A) (left backoff k : ℕ)
    → sum (turns windows operation left backoff k).waits ≤ longest left backoff
unfolding turns
turns_wait windows operation zero backoff k = omega arith
turns_wait windows operation (suc left) backoff k =
    elim (Bool-cases (is_transient windows (operation k))) [
      | inr settled ↦ rw settled (omega arith)
      | inl locked ↦ rw locked (
          omega (
            arith,
            sum-slept backoff (turns windows operation left (doubled backoff) (suc k)).waits,
            turns_wait windows operation left (doubled backoff) (suc k),
          ))
    ]

longest_default : longest 4 200000000 ≡ 3000000000
unfolding doubled
longest_default = refl

-- With the default policy, `LockRetry::run` waits three seconds in all at most.
pub default_waits {ℓ} :
    {A : Type ℓ} (windows : Bool) (operation : ℕ → IoResult A)
    → sum (run windows default operation).waits ≤ 3000000000
unfolding run default
default_waits windows operation =
    omega (arith, turns_wait windows operation 4 200000000 0, longest_default)
