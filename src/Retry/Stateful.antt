-- ===== src/Retry/Stateful.antt =====
-- The retry loop over a world that the calls change, against the loop over a list of results.
use intern.Prelude.{ℕ, zero, suc, ◌-◌, ◌≡◌, refl, ◌∙◌, Bool, true, false, inl, inr, Bool-cases}
use intern.Retry.Defs.{
  IoResult, is_transient, LockRetry, doubled, turns, attempts_made, run, turns_in, run_in,
}

-- the state that the call `k` finds, if every call before it was made
abbrev pub before {ℓ κ} : {S : Type ℓ} {A : Type κ} → (S → S × IoResult A) → S → ℕ → S
before operation s zero = s
before operation s (suc k) = (operation (before operation s k)).0

taken_if {ℓ} : {A : Type ℓ} (x y : A) (b : Bool) → b ≡ true → elim b [ true ↦ x | false ↦ y ] ≡ x
taken_if x y true e = refl
taken_if x y false e = cc e

left_if {ℓ} : {A : Type ℓ} (x y : A) (b : Bool) → b ≡ false → elim b [ true ↦ x | false ↦ y ] ≡ y
left_if x y true e = cc e
left_if x y false e = refl

turns_in-turns {ℓ κ} :
    {S : Type ℓ} {A : Type κ} (windows : Bool) (operation : S → S × IoResult A) (left backoff : ℕ)
    (s : S) (k : ℕ)
    → turns_in windows operation left (before operation s k)
      ≡ operation (
          before operation s
            (turns windows (λ j. (operation (before operation s j)).1) left backoff k).last_call)
unfolding turns_in turns
turns_in-turns windows operation zero backoff s k = refl
turns_in-turns windows operation (suc left) backoff s k =
    elim (Bool-cases (is_transient windows (operation (before operation s k)).1)) [
      | inl locked ↦
          taken_if _ _ _ locked
          ∙ (turns_in-turns windows operation left (doubled backoff) s (suc k) ∙ rw locked refl)
      | inr settled ↦ left_if _ _ _ settled ∙ rw settled refl
    ]

-- `LockRetry::run` over calls that change the world makes the same calls as over the results that the
-- calls give one after another: it leaves the world as its last call does, and returns that call's
-- result.
run_in-run {ℓ κ} :
    {S : Type ℓ} {A : Type κ} (windows : Bool) (policy : LockRetry) (operation : S → S × IoResult A)
    (s : S)
    → run_in windows policy operation s
      ≡ operation (
          before operation s
            (run windows policy (λ k. (operation (before operation s k)).1)).last_call)
unfolding run_in run
run_in-run windows policy operation s =
    turns_in-turns windows operation (attempts_made policy - 1) policy.backoff s 0

-- What every call keeps holds where the last call was made.
pub run_in-keeps {ℓ κ μ} :
    {S : Type ℓ} {A : Type κ} (P : S → Type μ) (windows : Bool) (policy : LockRetry)
    (operation : S → S × IoResult A)
    → ((s : S) → P s → P (operation s).0)
    → (s : S) → P s
    → (last : S) × (P last × (run_in windows policy operation s ≡ operation last))
run_in-keeps P windows policy operation keep s v = (
  before operation s (run windows policy (λ k. (operation (before operation s k)).1)).last_call,
  (
    before_all (run windows policy (λ k. (operation (before operation s k)).1)).last_call,
    run_in-run windows policy operation s,
  ),
)
  where
    before_all : (k : ℕ) → P (before operation s k)
    before_all zero = v
    before_all (suc k) = keep (before operation s k) (before_all k)
