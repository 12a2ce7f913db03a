-- ===== src/BuildLock/Tests.antt =====
-- A build lock that is taken, contended, given back and left by a process that dies.
use drone_db.Base.{ℕ, ◌≡◌, refl, ◌≢◌, true, false, none, some, bytes, update}
use drone_db.BuildLock.{Kernel, BuildLock, acquire_lock}
use drone_db.BuildLock.Objects.{
  IsWell, sound, kernel_of, empty_kernel, empty_kernel-IsWell, acquire_lock-IsWell,
}
use drone_db.BuildLock.System.{
  idle, opened, holding, System, open_there, open_new, lock_wins, Steps, init, freed,
}
use drone_db.BuildLock.Exclusion.{
  QuietSteps, start, later, Steps-of_quiet, mutual_exclusion, orphan_is_reclaimed,
}
use drone_db.BuildLock.Overlap.{release_during_open_breaks_exclusion}

abbrev fresh_lock : BuildLock
fresh_lock = record {
  lock_file_path = bytes "o.building";
  is_locked = false;
  file_descriptor = none;
}

abbrev taken : Kernel
taken = kernel_of (acquire_lock sound true fresh_lock empty_kernel)

taken-IsWell : IsWell taken
taken-IsWell = acquire_lock-IsWell sound true fresh_lock empty_kernel empty_kernel-IsWell

-- Process 0 opens the file, process 1 too, and process 0 wins the lock.
abbrev building : System
building = record {
  linked = some 0;
  next_inode = 1;
  owner = update (λ _. none) 0 (some 0);
  pc = update (update (update (λ _. idle) 0 (opened 0)) 1 (opened 0)) 0 (holding 0);
}

raced : QuietSteps init building
raced =
    later (later (later start (open_new 0 refl refl) tt) (open_there 1 {n = 0} refl refl) tt)
      (lock_wins 0 {n = 0} refl refl) tt

mutual_exclusion_example : ◌≡◌ {A = ℕ} 0 0
mutual_exclusion_example = mutual_exclusion {s = building} 0 0 0 0 raced refl refl

orphan_is_reclaimed_example :
    (t : System) × Steps (freed building 0 0) t × (t.pc 2 ≡ holding 0) × (t.linked ≡ some 0)
orphan_is_reclaimed_example =
    orphan_is_reclaimed {s = building} 0 2 0 (Steps-of_quiet raced) refl refl refl

release_during_open_breaks_exclusion_example :
    (t : System) × Steps building t × (t.pc 1 ≡ holding 0) × (t.pc 2 ≡ holding 1) × ◌≢◌ {A = ℕ} 1 2
release_during_open_breaks_exclusion_example =
    release_during_open_breaks_exclusion {s = building} 0 1 2 0 (Steps-of_quiet raced) refl refl
      refl
