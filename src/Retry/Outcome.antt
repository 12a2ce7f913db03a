-- ===== src/Retry/Outcome.antt =====
-- How a run ends, and that it ends.
use drone_db.Base.{
  ℕ, zero, suc, ◌+◌, ◌≡◌, refl, ap, ◌≤◌, ◌<◌, ◌⊎◌, inl, inr, ◌∙◌, none, some, List, [], ◌∷◌, ◌++◌,
  arith, leb, eqb, if◌then◌else◌, Bool-cases, Error, Result, ok, err, db_busy,
}
use drone_db.Retry.{RetryPolicy, Attempt, done, busy, throws, slept_after, delay, run}

Attempt-cases : (a : Attempt) → (a ≡ done) ⊎ (a ≡ busy) ⊎ ((e : Error) × (a ≡ throws e))
Attempt-cases done = inl refl
Attempt-cases busy = inr (inl refl)
Attempt-cases (throws e) = inr (inr (e, refl))

-- the delays above 0
abbrev pub slept_of : List ℕ → List ℕ
slept_of [] = []
slept_of (d ∷ ds) = let rest = slept_of ds in if eqb d 0 then rest else d ∷ rest

append_again : (xs : List ℕ) (y : ℕ) (zs : List ℕ) → (xs ++ y ∷ []) ++ zs ≡ xs ++ y ∷ zs
append_again [] y zs = refl
append_again (x ∷ xs) y zs = ap (λ w. x ∷ w) (append_again xs y zs)

append_nothing : (xs : List ℕ) → xs ++ [] ≡ xs
append_nothing [] = refl
append_nothing (x ∷ xs) = ap (λ w. x ∷ w) (append_nothing xs)

append-slept_after :
    (slept : List ℕ) (d : ℕ) (rest : List ℕ)
    → slept_after slept d ++ slept_of rest ≡ slept ++ slept_of (d ∷ rest)
append-slept_after slept d rest = ground (arith, append_again slept d (slept_of rest))

module _ {S : Type 0} (op : ℕ → S → Attempt × S) (clock : ℕ → ℕ) (draw : ℕ → ℕ → ℕ)
    (p : RetryPolicy) where
  pub run_out : (n : ℕ) (s : S) (slept : List ℕ) → run op clock draw p zero n s slept ≡ none
  unfolding run
  run_out n s slept = refl

  run_done :
      (fuel n : ℕ) (s : S) (slept : List ℕ)
      → (op n s).0 ≡ done
      → run op clock draw p (suc fuel) n s slept ≡ some (ok tt, (op n s).1, slept)
  unfolding run
  run_done fuel n s slept e = ground arith

  run_throws :
      (fuel n : ℕ) (s : S) (slept : List ℕ) (x : Error)
      → (op n s).0 ≡ throws x
      → run op clock draw p (suc fuel) n s slept ≡ some (err x, (op n s).1, slept)
  unfolding run
  run_throws fuel n s slept x e = ground arith

  run_late :
      (fuel n : ℕ) (s : S) (slept : List ℕ)
      → (op n s).0 ≡ busy
      → p.deadline_ms ≤ clock n
      → run op clock draw p (suc fuel) n s slept ≡ some (err db_busy, (op n s).1, slept)
  unfolding run
  run_late fuel n s slept e late = ground arith

  run_again :
      (fuel n : ℕ) (s : S) (slept : List ℕ)
      → (op n s).0 ≡ busy
      → clock n < p.deadline_ms
      → run op clock draw p (suc fuel) n s slept
        ≡ run op clock draw p fuel (n + 1) (op n s).1 (slept_after slept (delay op clock draw p n))
  unfolding run
  run_again fuel n s slept e early = ground arith

  -- An attempt ends the run, or is followed by the next after its delay.
  pub step_cases :
      (fuel n : ℕ) (s : S) (slept : List ℕ)
      → ((r : Result (Unit {0})) × (run op clock draw p (suc fuel) n s slept
            ≡ some (r, (op n s).1, slept)))
        ⊎ (run op clock draw p (suc fuel) n s slept
            ≡ run op clock draw p fuel
                (n + 1)
                (op n s).1
                (slept_after slept (delay op clock draw p n)))
  step_cases fuel n s slept = elim (Attempt-cases (op n s).0) [
    | inl e ↦ inl (ok tt, run_done fuel n s slept e)
    | inr (inr (x, e)) ↦ inl (err x, run_throws fuel n s slept x e)
    | inr (inl e) ↦ elim (Bool-cases (leb p.deadline_ms (clock n))) [
      | inl late ↦ inl (err db_busy, run_late fuel n s slept e (ground arith))
      | inr early ↦ inr (run_again fuel n s slept e (ground arith))
    ]
  ]

  -- the state after `k` attempts from attempt `n` on
  abbrev pub after : ℕ → ℕ → S → S
  after zero n s = s
  after (suc k) n s = after k (n + 1) (op n s).1

  -- The next `k` attempts find the database busy before the deadline.
  abbrev pub IsHeldUp : ℕ → ℕ → S → Type 0
  IsHeldUp zero n s = Unit
  IsHeldUp (suc k) n s =
      ((op n s).0 ≡ busy) × (clock n < p.deadline_ms) × IsHeldUp k (n + 1) (op n s).1

  -- the delays drawn after `k` attempts from attempt `n` on
  abbrev pub drawn : ℕ → ℕ → List ℕ
  drawn zero n = []
  drawn (suc k) n = delay op clock draw p n ∷ drawn k (n + 1)

  -- How the attempt that ends a run shows in its result.
  abbrev pub Ends : ℕ → S → Result (Unit {0}) → Type 0
  Ends n s r =
      (((op n s).0 ≡ done) × (r ≡ ok tt))
      ⊎ ((x : Error) × ((op n s).0 ≡ throws x) × (r ≡ err x))
      ⊎ (((op n s).0 ≡ busy) × (p.deadline_ms ≤ clock n) × (r ≡ err db_busy))

  run-Ends :
      (fuel n : ℕ) (s : S) (slept : List ℕ) (r : Result (Unit {0}))
      → Ends n s r
      → run op clock draw p (suc fuel) n s slept ≡ some (r, (op n s).1, slept)
  run-Ends fuel n s slept r (inl (e, x)) = rw x (run_done fuel n s slept e)
  run-Ends fuel n s slept r (inr (inl (y, e, x))) = rw x (run_throws fuel n s slept y e)
  run-Ends fuel n s slept r (inr (inr (e, late, x))) = rw x (run_late fuel n s slept e late)

  -- If the first `k` attempts find the database busy before the deadline, and the next one
  -- succeeds, throws something else, or finds it busy at or after the deadline, then the run
  -- returns, throws that, or throws the busy exception; it makes those attempts and no other, and
  -- sleeps, in order, those of the `k` drawn delays that are above 0.
  pub run_exact :
      (k fuel n : ℕ) (s : S) (slept : List ℕ) (r : Result (Unit {0}))
      → k < fuel
      → IsHeldUp k n s
      → Ends (n + k) (after k n s) r
      → run op clock draw p fuel n s slept
        ≡ some (r, (op (n + k) (after k n s)).1, slept ++ slept_of (drawn k n))
  run_exact k zero n s slept r h held e = absurd (omega arith)
  run_exact zero (suc fuel) n s slept r h held e =
      let z : n + 0 ≡ n = omega arith in
      rw (z, append_nothing slept) (run-Ends fuel n s slept r (rw z at e))
  run_exact (suc k) (suc fuel) n s slept r h held e =
      let z : n + suc k ≡ n + 1 + k = omega arith in
      let d = delay op clock draw p n in
      rw (z, ← append-slept_after slept d (drawn k (n + 1)))
        (run_again fuel n s slept held.0 held.1
          ∙ run_exact k fuel (n + 1) (op n s).1 (slept_after slept d) r (omega arith) held.2
              (rw z at e))

  -- Once the clock has passed the deadline at attempt `k`, the run has ended.
  pub run_terminates :
      (k fuel n : ℕ) (s : S) (slept : List ℕ)
      → k < fuel
      → p.deadline_ms ≤ clock (n + k)
      → (r : Result (Unit {0}) × S × List ℕ) × (run op clock draw p fuel n s slept ≡ some r)
  run_terminates k zero n s slept h late = absurd (omega arith)
  run_terminates zero (suc fuel) n s slept h late = elim (Attempt-cases (op n s).0) [
    | inl e ↦ (_, run_done fuel n s slept e)
    | inr (inr (x, e)) ↦ (_, run_throws fuel n s slept x e)
    | inr (inl e) ↦ let z : n + 0 ≡ n = omega arith in (_, run_late fuel n s slept e (rw z at late))
  ]
  run_terminates (suc k) (suc fuel) n s slept h late = elim (step_cases fuel n s slept) [
    | inl (r, e) ↦ (_, e)
    | inr e ↦
        let z : n + suc k ≡ n + 1 + k = omega arith in
        let (r, ran) =
          run_terminates k fuel (n + 1) (op n s).1 (slept_after slept (delay op clock draw p n))
            (omega arith) (rw z at late) in
        (r, e ∙ ran)
  ]
