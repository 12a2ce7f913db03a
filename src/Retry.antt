-- ===== src/Retry.antt =====
-- include/retrypolicy.h and library/retrypolicy.cpp: an operation that finds the database busy is
-- tried again, after a random delay, until a deadline.
-- What the operation does at each attempt is a function of its state. The clock (milliseconds since
-- the first attempt, at the time an attempt has failed) and the random number generator are
-- arguments. `run` has fuel for the attempts, and is `none` where that runs out.
pub mod Bounds
pub mod Outcome
mod Tests
use drone_db.Base.{
  ℕ, zero, suc, ◌+◌, ◌*◌, ◌%◌, ◌^◌, min, Option, none, some, List, [], ◌∷◌, ◌++◌, leb, eqb, true,
  false, if◌then◌else◌, Error, Result, ok, err, db_busy,
}

pub record RetryPolicy : Type 0 where
  pub base_delay_ms : ℕ  -- unsigned
  pub max_delay_ms : ℕ  -- unsigned
  pub deadline_ms : ℕ  -- unsigned

abbrev pub default_policy : RetryPolicy
default_policy = record { base_delay_ms = 25; max_delay_ms = 2000; deadline_ms = 60000 }

-- How an attempt ends: `op()` returns, throws `DBBusyException`, or throws something else.
pub data Attempt : Type 0 where
  done : Attempt
  busy : Attempt
  throws : Error → Attempt

-- `min(maxDelayMs, baseDelayMs << min(attempt, 16u))`, the shift in 32 bits
pub backoff : RetryPolicy → ℕ → ℕ
backoff p attempt = min p.max_delay_ms (p.base_delay_ms * 2 ^ min attempt 16 % 2 ^ 32)

-- `sleep_for` is called with a delay above 0 only.
abbrev pub slept_after : List ℕ → ℕ → List ℕ
slept_after slept delay = if eqb delay 0 then slept else slept ++ delay ∷ []

module _ {S : Type 0} (op : ℕ → S → Attempt × S) (clock : ℕ → ℕ) (draw : ℕ → ℕ → ℕ)
    (p : RetryPolicy) where
  abbrev pub delay : ℕ → ℕ
  delay attempt = if eqb (backoff p attempt) 0 then 0 else draw attempt (backoff p attempt)

  -- the result, the state, and the delays that were slept, in order
  pub run : ℕ → ℕ → S → List ℕ → Option (Result (Unit {0}) × S × List ℕ)
  run zero attempt s slept = none
  run (suc fuel) attempt s slept = elim ((op attempt s).0) [
    | done ↦ some (ok tt, (op attempt s).1, slept)
    | throws e ↦ some (err e, (op attempt s).1, slept)
    | busy ↦ elim (leb p.deadline_ms (clock attempt)) [
      | true ↦ some (err db_busy, (op attempt s).1, slept)
      | false ↦ run fuel (attempt + 1) (op attempt s).1 (slept_after slept (delay attempt))
    ]
  ]

-- `executeWithRetry`
pub execute_with_retry :
    {S : Type 0} (op : ℕ → S → Attempt × S) (clock : ℕ → ℕ) (draw : ℕ → ℕ → ℕ)
    → ℕ
    → S
    → Option (Result (Unit {0}) × S × List ℕ)
execute_with_retry op clock draw fuel s = run op clock draw default_policy fuel 0 s []
