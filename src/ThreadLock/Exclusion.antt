-- ===== src/ThreadLock/Exclusion.antt =====
-- Two threads that ask for a name at once can both get its lock.
use drone_db.Base.{ℕ, ◌≡◌, ◌≢◌, false, none, some, arith, Text, eqb}
use drone_db.ThreadLock.{pos, outside, counted, holding, unlocked, Locks, stop}
use drone_db.ThreadLock.Race.{
  At, CanReach, flip, finds_none, sets_one, inserts, gets, locks, gets_again, unlocks, spends,
  erases_mutex, erases_count,
}

abbrev pub HoldBoth : Text → ℕ → ℕ → Locks → Type 0
HoldBoth key i j s =
    ((m : ℕ) × (s.threads i ≡ holding key m)) × ((m : ℕ) × (s.threads j ≡ holding key m))

module _ (key : Text) (i j : ℕ) (d : eqb i j ≡ false) (d' : eqb j i ≡ false) where
  abbrev P : Locks → Type 0
  P = HoldBoth key i j

  -- With no entry left, the first thread makes new ones and locks the new mutex.
  locks_anew : (s : Locks) (n : ℕ) → At key i j s outside (holding key n) none none → CanReach P s
  locks_anew s n a = finds_none P key i j d s _ none a (λ s1 a1.
      sets_one P key i j d s1 _ none none a1 (λ s2 a2. inserts P key i j d s2 _ _ a2 (λ s3 a3 free.
        locks P key i j d s3 _ _ _ s2.next a3 free
          (λ s4 a4. (s4, stop s4, ((s2.next, a4.here), (n, a4.there)))))))

  -- The first thread, done, erases the entries although the other holds the mutex.
  leaves :
      (s : Locks) (m n : ℕ)
      → At key i j s (unlocked key) (holding key n) (some (pos 1)) (some m)
      → CanReach P s
  leaves s m n a = spends P key i j d s _ (some m) a (λ s1 a1.
      erases_mutex P key i j d s1 _ _ (some m) a1
        (λ s2 a2. erases_count P key i j d s2 _ _ none a2 (λ s3 a3. locks_anew s3 n a3)))

  -- Both have written the count 1.
  takes_turns :
      (s : Locks) → At key i j s (counted key) (counted key) (some (pos 1)) none → CanReach P s
  takes_turns s a = inserts P key i j d s _ _ a (λ s1 a1 free.
      locks P key i j d s1 _ _ _ s.next a1 free (λ s2 a2.
        gets P key j i d' s2 _ _ s.next (flip a2) (λ s3 a3.
          gets_again P key i j d s3 _ _ s.next s.next (flip a3) (λ s4 a4.
            unlocks P key i j d s4 _ _ _ s.next a4 (λ s5 a5 free5.
              locks P key j i d' s5 _ _ _ s.next (flip a5) free5
                (λ s6 a6. leaves s6 s.next s.next (flip a6)))))))

  both_set : (s : Locks) → At key i j s outside outside none none → CanReach P s
  both_set s a = finds_none P key i j d s _ none a (λ s1 a1.
      finds_none P key j i d' s1 _ none (flip a1) (λ s2 a2.
        sets_one P key i j d s2 _ none none (flip a2) (λ s3 a3.
          sets_one P key j i d' s3 _ _ none (flip a3) (λ s4 a4. takes_turns s4 (flip a4)))))

-- Where two threads hold no lock and want none yet, and a name has no count and no mutex, some order of
-- their steps leads to a state in which both hold the lock of the name.
pub unguarded_maps_break_exclusion :
    (key : Text) (i j : ℕ) (s : Locks)
    → i ≢ j
    → s.threads i ≡ outside
    → s.threads j ≡ outside
    → s.counts key ≡ none
    → s.mutexes key ≡ none
    → CanReach (HoldBoth key i j) s
unguarded_maps_break_exclusion key i j s d here there count mutex =
    both_set key i j (ground arith) (ground arith) s
      (record { here = here; there = there; count = count; mutex = mutex })
