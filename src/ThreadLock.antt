-- ===== src/ThreadLock.antt =====
-- library/threadlock.cpp: `ThreadLock`, a mutex for a name, shared by the threads of a process. The
-- two maps are not guarded, so that the steps of several threads mix: each search, insertion, write and
-- erasure of a map is a step of its own, and so are the lock and the unlock of a mutex.
-- A mutex is a number, so that a reference to one that is erased is not the one that is inserted later.
-- Only `operator[]` and the write through it are one step: the orders of steps here are some of those of
-- the source. A count is an `int` that does not overflow, as it counts threads.
pub mod Race
pub mod Exclusion
mod Tests
use drone_db.Base.{
  ℕ, zero, suc, ◌+◌, ◌≡◌, Bool, true, false, Option, none, some, Text, same, update, if◌then◌else◌,
}

pub data ℤ : Type 0 where
  pos negsuc : ℕ → ℤ

abbrev pub increment : ℤ → ℤ
increment (pos n) = pos (suc n)
increment (negsuc zero) = pos 0
increment (negsuc (suc n)) = negsuc n

abbrev pub decrement : ℤ → ℤ
decrement (pos zero) = negsuc 0
decrement (pos (suc n)) = pos n
decrement (negsuc n) = negsuc (suc n)

-- `n <= 0`
abbrev pub is_spent : ℤ → Bool
is_spent (pos zero) = true
is_spent (pos (suc n)) = false
is_spent (negsuc n) = true

-- Where a thread is. The constructor has searched for the count, has written it, has the mutex, has
-- locked it; the destructor has the mutex, has unlocked it, has found the count spent, has erased the
-- mutex.
pub data Thread : Type 0 where
  outside : Thread
  searched : Text → Bool → Thread
  counted : Text → Thread
  waiting holding releasing : Text → ℕ → Thread
  unlocked spent erased : Text → Thread

-- `_mutexes` and `_mutexesCount`, which mutexes are locked, the number of the next, and the threads.
pub record Locks : Type 0 where
  pub mutexes : Text → Option ℕ
  pub counts : Text → Option ℤ
  pub locked : ℕ → Bool
  pub next : ℕ
  pub threads : ℕ → Thread

abbrev pub put : {A : Type 0} → Text → A → (Text → A) → Text → A
put key v f q = if same key q then v else f q

-- what `_mutexesCount[key]` is
abbrev pub counted_at : Option ℤ → ℤ
counted_at none = pos 0
counted_at (some n) = n

abbrev pub is_found : Option ℤ → Bool
is_found none = false
is_found (some n) = true

abbrev pub goes_to : ℕ → Thread → Locks → Locks
goes_to i x s = record s { threads = update s.threads i x }

abbrev pub set_count : Text → Option ℤ → Locks → Locks
set_count key c s = record s { counts = put key c s.counts }

abbrev pub set_locked : ℕ → Bool → Locks → Locks
set_locked m b s = record s { locked = update s.locked m b }

-- `_mutexes[key]`: the mutex of the name, or a new one, and where the thread is with it.
abbrev pub with_mutex : Text → ℕ → (ℕ → Thread) → Option ℕ → Locks → Locks
with_mutex key i x (some m) s = goes_to i (x m) s
with_mutex key i x none s = goes_to i (x s.next) (record s {
  mutexes = put key (some s.next) s.mutexes;
  locked = update s.locked s.next false;
  next = suc s.next;
})

-- One step of a thread, from where it is; a lock waits until the mutex is free. `key` is the name
-- that a thread outside asks for.
unfoldable pub act : Text → ℕ → Locks → Thread → Option Locks
act key i s outside = some (goes_to i (searched key (is_found (s.counts key))) s)
act _ i s (searched key false) = some (goes_to i (counted key) (set_count key (some (pos 1)) s))
act _ i s (searched key true) =
    some (goes_to i (counted key) (set_count key (some (increment (counted_at (s.counts key)))) s))
act _ i s (counted key) = some (with_mutex key i (waiting key) (s.mutexes key) s)
act _ i s (waiting key m) =
    if s.locked m then none else some (goes_to i (holding key m) (set_locked m true s))
act _ i s (holding key m) = some (with_mutex key i (releasing key) (s.mutexes key) s)
act _ i s (releasing key m) = some (goes_to i (unlocked key) (set_locked m false s))
act _ i s (unlocked key) =
    let left = decrement (counted_at (s.counts key)) in
    some (goes_to i (if is_spent left then spent key else outside) (set_count key (some left) s))
act _ i s (spent key) =
    some (goes_to i (erased key) (record s { mutexes = put key none s.mutexes }))
act _ i s (erased key) = some (goes_to i outside (set_count key none s))

-- The threads' steps, in any order.
pub data Steps : Locks → Locks → Type 0 where
  stop : (s : Locks) → Steps s s
  step :
      (key : Text) (i : ℕ) (s s1 s2 : Locks)
      → act key i s (s.threads i) ≡ some s1
      → Steps s1 s2
      → Steps s s2
