-- ===== src/ThreadLock/Tests.antt =====
-- Two threads and the name `a`, before any lock.
use drone_db.Base.{ℕ, ◌≡◌, refl, none, some, false, Text, same, bytes, Option}
use drone_db.ThreadLock.{Thread, outside, waiting, holding, unlocked, Locks, act}
use drone_db.ThreadLock.Race.{CanReach}
use drone_db.ThreadLock.Exclusion.{HoldBoth, unguarded_maps_break_exclusion}

abbrev key : Text
key = bytes "a"

abbrev idle : Locks
idle = record {
  mutexes = λ q. none;
  counts = λ q. none;
  locked = λ m. false;
  next = 0;
  threads = λ i. outside;
}

abbrev next_of : ℕ → Option Locks → Option Locks
next_of i none = none
next_of i (some s) = act key i s (s.threads i)

abbrev threads_of : Option Locks → Option (Thread × Thread)
threads_of none = none
threads_of (some s) = some (s.threads 0, s.threads 1)

abbrev holder : Option Locks
holder = next_of 0 (next_of 0 (next_of 0 (next_of 0 (some idle))))

abbrev waiter : Option Locks
waiter = next_of 1 (next_of 1 (next_of 1 holder))

second_waits : threads_of waiter ≡ some (holding key 0, waiting key 0)
unfolding act same
second_waits = refl

second_is_blocked : threads_of (next_of 1 waiter) ≡ none
unfolding act same
second_is_blocked = refl

second_locks :
    threads_of (next_of 1 (next_of 0 (next_of 0 waiter))) ≡ some (unlocked key, holding key 0)
unfolding act same
second_locks = refl

-- With two counted, the first leaves the entries to the second.
first_leaves : threads_of (next_of 0 (next_of 0 (next_of 0 waiter))) ≡ some (outside, waiting key 0)
unfolding act same
first_leaves = refl

unguarded_maps_break_exclusion_example : CanReach (HoldBoth key 0 1) idle
unguarded_maps_break_exclusion_example =
    unguarded_maps_break_exclusion key 0 1 idle (λ e. cc) refl refl refl refl
