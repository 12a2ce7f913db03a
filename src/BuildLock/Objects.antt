-- ===== src/BuildLock/Objects.antt =====
-- What one lock object does to the kernel: it takes the lock or leaves no trace, and gives it back.
use drone_db.Base.{
  ℕ, ◌≡◌, refl, ◌<◌, inl, inr, Bool, true, false, none, some, arith, Text, same_refl, same_iff,
  Error, Result, ok, err, build_in_progress, Option-cases,
}
use drone_db.BuildLock.{
  Kernel, Faults, BuildLock, inode_at, open_file, try_acquire_kernel_lock, close_file, acquire_lock,
  release, destroy, cleanup, move_construct, move_assign, lock_failure, disown,
}

-- Inodes and descriptors are numbered as they are made, and a lock is owned through a descriptor
-- that is open on its file.
pub record IsWell (k : Kernel) : Type 0 where
  pub link_old : (p : Text) (n : ℕ) → k.links p ≡ some n → n < k.next_inode
  pub owned_old : (n fd : ℕ) → k.owner n ≡ some fd → (n < k.next_inode) × (fd < k.next_file)
  pub owned_open : (n fd : ℕ) → k.owner n ≡ some fd → k.files fd ≡ some n
  pub file_old : (n fd : ℕ) → k.files fd ≡ some n → (n < k.next_inode) × (fd < k.next_file)

abbrev pub empty_kernel : Kernel
empty_kernel = record {
  links = λ _. none;
  files = λ _. none;
  owner = λ _. none;
  next_inode = 0;
  next_file = 0;
}

abbrev pub sound : Faults
sound = record { parent_exists = true; open_error = none; lock_error = none }

abbrev pub kernel_of : Result (Unit {0}) × BuildLock × Kernel → Kernel
kernel_of r = r.2

abbrev pub object_of : Result (Unit {0}) × BuildLock × Kernel → BuildLock
object_of r = r.1

abbrev pub outcome_of : Result (Unit {0}) × BuildLock × Kernel → Result (Unit {0})
outcome_of r = r.0

fresh_file : (k : Kernel) → IsWell k → k.files k.next_file ≡ none
fresh_file k w = elim (Option-cases (k.files k.next_file)) [
  | inl e ↦ e
  | inr (n, e) ↦ absurd (omega (arith, w.file_old n k.next_file e))
]

-- A descriptor that has just been opened owns nothing, so closing it unlocks nothing.
disown_fresh : (k : Kernel) → IsWell k → (n : ℕ) → disown k.next_file (k.owner n) ≡ k.owner n
disown_fresh k w n = elim (Option-cases (k.owner n)) [
  | inl e ↦ rw e
  | inr (fd, e) ↦ rw e (ground (arith, w.owned_old n fd e))
]

module _ (wait : Bool) (l : BuildLock) (k : Kernel) (w : IsWell k) where
  -- With no fault, a lock that no descriptor owns is taken, whether its file is there or not: the
  -- object is locked, and its descriptor owns the lock of the file that the path then names.
  pub acquire_free :
      k.owner (inode_at k l.lock_file_path) ≡ none
      → let r = acquire_lock sound wait l k in
        (outcome_of r ≡ ok tt)
        × ((object_of r).is_locked ≡ true)
        × ((object_of r).file_descriptor ≡ some k.next_file)
        × ((kernel_of r).links l.lock_file_path ≡ some (inode_at k l.lock_file_path))
        × ((kernel_of r).owner (inode_at k l.lock_file_path) ≡ some k.next_file)
  unfolding acquire_lock open_file try_acquire_kernel_lock
  acquire_free free = ground (arith, same_refl l.lock_file_path)

  -- With no fault, a lock that some descriptor owns is refused as a build in progress, and the
  -- object stays as it was but for its closed descriptor.
  pub acquire_contended :
      (n fd : ℕ)
      → k.links l.lock_file_path ≡ some n
      → k.owner n ≡ some fd
      → let r = acquire_lock sound wait l k in
        (outcome_of r ≡ err build_in_progress) × (object_of r ≡ record l { file_descriptor = none })
  unfolding acquire_lock open_file try_acquire_kernel_lock lock_failure
  acquire_contended n fd there held = ground (arith, w.owned_old n fd)

  -- Whatever the fault, an attempt that throws leaves no lock, no descriptor and no locked object.
  pub acquire_failure_leaves_no_trace :
      (faults : Faults) (e : Error) (n fd : ℕ)
      → l.is_locked ≡ false
      → outcome_of (acquire_lock faults wait l k) ≡ err e
      → let r = acquire_lock faults wait l k in
        ((object_of r).is_locked ≡ false)
        × ((kernel_of r).owner n ≡ k.owner n)
        × ((kernel_of r).files fd ≡ k.files fd)
  unfolding acquire_lock open_file try_acquire_kernel_lock close_file
  acquire_failure_leaves_no_trace faults e n fd unlocked failed =
      ground (arith, disown_fresh k w n, fresh_file k w)

-- Giving a lock back removes the file's name, frees its inode and closes the descriptor; a second
-- `release`, or the destructor after it, does nothing more.
pub release_frees :
    (l : BuildLock) (k : Kernel) (n fd : ℕ)
    → IsWell k
    → l.is_locked ≡ true
    → l.file_descriptor ≡ some fd
    → k.owner n ≡ some fd
    → let (l', k') = release l k in
      (k'.owner n ≡ none)
      × (k'.links l.lock_file_path ≡ none)
      × (k'.files fd ≡ none)
      × (l'.is_locked ≡ false)
      × (release l' k' ≡ (l', k'))
      × (destroy l' k' ≡ k')
unfolding release destroy cleanup
release_frees l k n fd w locked file held = ground (arith, same_refl l.lock_file_path)

-- A lock that has been moved from does nothing when it is destroyed, and what it was moved to gives
-- the lock back as the first would have; assigning to a lock first gives back its own.
pub moved_once :
    (l this : BuildLock) (k : Kernel)
    → (destroy (move_construct l).1 k ≡ k)
      × (destroy (move_construct l).0 k ≡ destroy l k)
      × ((move_assign this l k).0 ≡ l)
      × (destroy (move_assign this l k).1 k ≡ k)
      × ((move_assign this l k).2 ≡ destroy this k)
unfolding destroy move_construct move_assign
moved_once l this k = (refl, refl, refl, refl, refl)

pub empty_kernel-IsWell : IsWell empty_kernel
empty_kernel-IsWell = record {
  link_old = λ p n e. cc;
  owned_old = λ n fd e. cc;
  owned_open = λ n fd e. cc;
  file_old = λ n fd e. cc;
}

-- An attempt to take the lock keeps the kernel's tables in order, whatever the faults.
pub acquire_lock-IsWell :
    (faults : Faults) (wait : Bool) (l : BuildLock) (k : Kernel)
    → IsWell k
    → IsWell (kernel_of (acquire_lock faults wait l k))
unfolding acquire_lock open_file try_acquire_kernel_lock close_file
acquire_lock-IsWell faults wait l k w = record {
  link_old = λ p n e.
      ground (arith, w.link_old p n, w.link_old l.lock_file_path n, same_iff l.lock_file_path p);
  owned_old =
      λ n fd e. ground (arith, w.owned_old n fd, w.link_old l.lock_file_path n, disown_fresh k w n);
  owned_open = λ n fd e. ground (arith, w.owned_open n fd, w.owned_old n fd, disown_fresh k w n);
  file_old = λ n fd e. ground (arith, w.file_old n fd, w.link_old l.lock_file_path n);
}

pub release-IsWell : (l : BuildLock) (k : Kernel) → IsWell k → IsWell (release l k).1
unfolding release cleanup
release-IsWell l k w = record {
  link_old = λ p n e. ground (arith, w.link_old p n);
  owned_old = λ n fd e. ground (arith, w.owned_old n fd);
  owned_open = λ n fd e. ground (arith, w.owned_open n fd);
  file_old = λ n fd e. ground (arith, w.file_old n fd);
}
