-- ===== src/BuildLock/System.antt =====
-- Processes that each take the same build lock, one system call at a time, in any order.
use drone_db.Base.{ℕ, suc, ◌≡◌, Option, none, some, update}

-- Where a process stands in `acquireLock` and `cleanup`, with the inode of its descriptor.
pub data Pc : Type 0 where
  idle : Pc
  opened : (inode : ℕ) → Pc  -- between `open` and `fcntl`
  holding : (inode : ℕ) → Pc  -- `isLocked`, the build runs
  unlinked : (inode : ℕ) → Pc  -- in `cleanup`, between `unlink` and the unlock

pub record System : Type 0 where
  pub linked : Option ℕ
  pub next_inode : ℕ
  pub owner : ℕ → Option ℕ
  pub pc : ℕ → Pc

abbrev pub moved : System → ℕ → Pc → System
moved s i p = record s { pc = update s.pc i p }

abbrev pub freed : System → ℕ → ℕ → System
freed s i n = record s { owner = update s.owner n none; pc = update s.pc i idle }

-- A process that dies closes its descriptors, and the kernel drops its lock.
pub data Step (s : System) : System → Type 0 where
  open_there : (i : ℕ) {n : ℕ} → s.pc i ≡ idle → s.linked ≡ some n → Step s (moved s i (opened n))
  open_new :
      (i : ℕ)
      → s.pc i ≡ idle
      → s.linked ≡ none
      → Step s (record s {
        linked = some s.next_inode;
        next_inode = suc s.next_inode;
        pc = update s.pc i (opened s.next_inode);
      })
  lock_wins :
      (i : ℕ) {n : ℕ}
      → s.pc i ≡ opened n
      → s.owner n ≡ none
      → Step s (record s { owner = update s.owner n (some i); pc = update s.pc i (holding n) })
  lock_busy : (i j : ℕ) {n : ℕ} → s.pc i ≡ opened n → s.owner n ≡ some j → Step s (moved s i idle)
  unlinks :
      (i : ℕ) {n : ℕ}
      → s.pc i ≡ holding n
      → Step s (record s { linked = none; pc = update s.pc i (unlinked n) })
  unlocks : (i : ℕ) {n : ℕ} → s.pc i ≡ unlinked n → Step s (freed s i n)
  dies_opened : (i : ℕ) {n : ℕ} → s.pc i ≡ opened n → Step s (moved s i idle)
  dies_holding : (i : ℕ) {n : ℕ} → s.pc i ≡ holding n → Step s (freed s i n)
  dies_unlinked : (i : ℕ) {n : ℕ} → s.pc i ≡ unlinked n → Step s (freed s i n)

pub data Steps (s : System) : System → Type 0 where
  here : Steps s s
  next : {t u : System} → Steps s t → Step t u → Steps s u

abbrev pub init : System
init = record { linked = none; next_inode = 0; owner = λ _. none; pc = λ _. idle }

-- The lock is on an inode whose owner is the process, from the lock to the unlock.
abbrev pub locked_inode : Pc → Option ℕ
locked_inode idle = none
locked_inode (opened _) = none
locked_inode (holding n) = some n
locked_inode (unlinked n) = some n

abbrev pub built_inode : Pc → Option ℕ
built_inode (holding n) = some n
built_inode _ = none

abbrev pub opened_inode : Pc → Option ℕ
opened_inode (opened n) = some n
opened_inode _ = none
