-- ===== src/Retry/Bounds.antt =====
-- Delays stay within the policy.
use drone_db.Base.{
  ℕ, zero, suc, ◌+◌, ◌≤◌, Option, none, some, List, [], ◌∷◌, arith, All, All-append, eqb, if_split,
  Result, inl, inr,
}
use drone_db.Retry.Outcome.{run_out, step_cases}
use drone_db.Retry.{RetryPolicy, Attempt, backoff, slept_after, delay, run}

backoff-le : (p : RetryPolicy) (n : ℕ) → backoff p n ≤ p.max_delay_ms
unfolding backoff
backoff-le p n = omega arith

-- The delays of a run that ended.
abbrev pub AllSlept : {S : Type 0} → (ℕ → Type 0) → Option (Result (Unit {0}) × S × List ℕ) → Type 0
AllSlept P none = Unit
AllSlept P (some (r, s, slept)) = All P slept

slept_after-All :
    (P : ℕ → Type 0) (slept : List ℕ) (d : ℕ) → All P slept → P d → All P (slept_after slept d)
slept_after-All P slept d a b = if_split (All P) (eqb d 0) a (All-append P slept (d ∷ []) a (b, tt))

module _ {S : Type 0} (op : ℕ → S → Attempt × S) (clock : ℕ → ℕ) (draw : ℕ → ℕ → ℕ)
    (p : RetryPolicy) (fair : (n bound : ℕ) → draw n bound ≤ bound) where
  delay-le : (n : ℕ) → delay op clock draw p n ≤ p.max_delay_ms
  delay-le n = ground (arith, backoff-le p n, fair n (backoff p n))

  within :
      (fuel n : ℕ) (s : S) (slept : List ℕ)
      → All (λ d. d ≤ p.max_delay_ms) slept
      → AllSlept (λ d. d ≤ p.max_delay_ms) (run op clock draw p fuel n s slept)
  within zero n s slept h = rw (run_out op clock draw p n s slept) tt
  within (suc fuel) n s slept h = elim (step_cases op clock draw p fuel n s slept) [
    | inl (r, e) ↦ rw e h
    | inr e ↦ rw e (
        within fuel (n + 1) (op n s).1 (slept_after slept (delay op clock draw p n))
          (slept_after-All _ slept (delay op clock draw p n) h (delay-le n)))
  ]

  -- No delay is longer than `maxDelayMs`, when the generator draws within the range asked for.
  pub delays_bounded :
      (fuel : ℕ) (s : S) → AllSlept (λ d. d ≤ p.max_delay_ms) (run op clock draw p fuel 0 s [])
  delays_bounded fuel s = within fuel 0 s [] tt
