-- ===== src/Retry/Tests.antt =====
-- A write that finds the database busy twice and then comes through, and one that never does.
use drone_db.Base.{
  ℕ, zero, suc, ◌*◌, ◌≡◌, refl, ◌≤◌, some, List, [], ◌∷◌, arith, ltb, map, if◌then◌else◌, Result,
  ok, err, db_busy, inl,
}
use drone_db.Retry.{default_policy, Attempt, done, busy, backoff, run, execute_with_retry}
use drone_db.Retry.Bounds.{AllSlept, delays_bounded}
use drone_db.Retry.Outcome.{slept_of, run_exact, run_terminates}

-- the state counts the attempts
abbrev busy_twice : ℕ → ℕ → Attempt × ℕ
busy_twice n s = (if ltb n 2 then busy else done, suc s)

abbrev always_busy : ℕ → ℕ → Attempt × ℕ
always_busy n s = (busy, suc s)

abbrev thirty_seconds : ℕ → ℕ
thirty_seconds n = n * 30000

abbrev longest : ℕ → ℕ → ℕ
longest n bound = bound

-- The first draw is 0.
abbrev skips_first : (ℕ → ℕ → ℕ) → ℕ → ℕ → ℕ
skips_first f zero bound = 0
skips_first f (suc n) bound = f (suc n) bound

run_skips_first :
    execute_with_retry busy_twice thirty_seconds (skips_first longest) 5 0
    ≡ some (ok tt, 3, 50 ∷ [])
unfolding execute_with_retry run backoff
run_skips_first = refl

run_busy_twice :
    execute_with_retry busy_twice thirty_seconds longest 5 0 ≡ some (ok tt, 3, 25 ∷ 50 ∷ [])
unfolding execute_with_retry run backoff
run_busy_twice = refl

run_always_busy :
    execute_with_retry always_busy thirty_seconds longest 5 0 ≡ some (err db_busy, 3, 25 ∷ 50 ∷ [])
unfolding execute_with_retry run backoff
run_always_busy = refl

backoff_doubles :
    map (backoff default_policy) (0 ∷ 1 ∷ 6 ∷ 7 ∷ 40 ∷ []) ≡ 25 ∷ 50 ∷ 1600 ∷ 2000 ∷ 2000 ∷ []
unfolding backoff
backoff_doubles = refl

delays_bounded_example :
    AllSlept (λ d. d ≤ 2000) (run busy_twice thirty_seconds longest default_policy 5 0 0 [])
delays_bounded_example =
    delays_bounded busy_twice thirty_seconds longest default_policy (λ n bound. omega arith) 5 0

run_exact_example :
    run busy_twice thirty_seconds (skips_first longest) default_policy 5 0 0 []
    ≡ some (ok tt, 3, slept_of (0 ∷ 50 ∷ []))
unfolding backoff
run_exact_example =
    run_exact busy_twice thirty_seconds (skips_first longest) default_policy 2 5 0 0 [] (ok tt)
      (omega arith) (refl, omega arith, (refl, omega arith, tt)) (inl (refl, refl))

run_terminates_example :
    (r : Result (Unit {0}) × ℕ × List ℕ) × (run always_busy thirty_seconds longest default_policy 3
        0 0 []
      ≡ some r)
run_terminates_example =
    run_terminates always_busy thirty_seconds longest default_policy 2 3 0 0 [] (omega arith)
      (omega arith)
