-- ===== src/Tests/Retry.antt =====
-- LockRetry at concrete inputs: a file that is locked for two calls.
use intern.Prelude.{ℕ, suc, zero, ◌≤◌, ◌<◌, ◌≡◌, ◌⊎◌, refl, true, false, some, ◌∷◌, []}
use intern.Retry.Defs.{
  IoResult, ok, err, is_transient, is_transient_lock, default, run, turns, doubled, attempts_made,
}
use intern.Retry.Laws.{sum, run_lem, default_waits}

abbrev locked_twice : ℕ → IoResult ℕ
locked_twice zero = err (record { raw_os_error = some 32; already_exists = false })
locked_twice (suc zero) = err (record { raw_os_error = some 33; already_exists = false })
locked_twice _ = ok 7

waits_twice : (run true default locked_twice).waits ≡ 200000000 ∷ 400000000 ∷ []
unfolding run default turns doubled is_transient_lock
waits_twice = refl

opened : (run true default locked_twice).result ≡ ok 7
unfolding run default turns doubled is_transient_lock
opened = refl

run_lem_example :
    (suc (run true default locked_twice).last_call ≤ attempts_made default)
    × ((run true default locked_twice).result
        ≡ locked_twice (run true default locked_twice).last_call)
    × ((j : ℕ)
        → j < (run true default locked_twice).last_call
        → is_transient true (locked_twice j) ≡ true)
    × ((suc (run true default locked_twice).last_call ≡ attempts_made default)
        ⊎ (is_transient true (run true default locked_twice).result ≡ false))
run_lem_example = run_lem true default locked_twice

default_waits_example : sum (run true default locked_twice).waits ≤ 3000000000
default_waits_example = default_waits true locked_twice
