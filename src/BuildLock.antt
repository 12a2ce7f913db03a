-- ===== src/BuildLock.antt =====
-- library/buildlock.cpp and include/buildlock.h, the branch for Linux: a lock between processes, by
-- an advisory lock of the kernel on the file `<output>.building`.
-- The kernel is a table of links, open descriptors and lock owners. What the calls `open`, `fcntl`
-- and `ftruncate` may answer beyond that is chosen by `Faults`. The text written into the file is
-- not modelled: no code reads it.
pub mod Objects
pub mod System
pub mod Exclusion
pub mod Overlap
mod Tests
use drone_db.Base.{
  ℕ, suc, ◌+◌, Bool, true, false, ◌||◌, Option, none, some, [], ◌++◌, Text, same, bytes, eqb,
  update, if◌then◌else◌, Error, Result, ok, err, build_in_progress, build_lock_error,
  build_lock_permission, build_lock_disk_full, build_lock_directory,
}

-- values of `errno`
pub data Errno : Type 0 where
  eacces enospc enoent enametoolong ewouldblock eagain unlisted : Errno

pub record Kernel : Type 0 where
  pub links : Text → Option ℕ
  pub files : ℕ → Option ℕ
  pub owner : ℕ → Option ℕ
  pub next_inode : ℕ
  pub next_file : ℕ

pub record Faults : Type 0 where
  pub parent_exists : Bool
  pub open_error : Option Errno
  pub lock_error : Option Errno

pub record BuildLock : Type 0 where
  pub lock_file_path : Text
  pub is_locked : Bool
  pub file_descriptor : Option ℕ

abbrev pub link : (Text → Option ℕ) → Text → Option ℕ → Text → Option ℕ
link f p v q = if same p q then v else f q

-- `open` with `O_CREAT` and without `O_EXCL`: the file that is there, or a new one
abbrev pub inode_at : Kernel → Text → ℕ
inode_at k path = elim (k.links path) [ none ↦ k.next_inode | some n ↦ n ]

pub open_file : Text → Kernel → Kernel
open_file path k = record {
  links = link k.links path (some (inode_at k path));
  files = update k.files k.next_file (some (inode_at k path));
  owner = k.owner;
  next_inode = elim (k.links path) [ none ↦ suc k.next_inode | some _ ↦ k.next_inode ];
  next_file = suc k.next_file;
}

abbrev pub inode_of : Kernel → ℕ → ℕ → ℕ
inode_of k fd d = elim (k.files fd) [ none ↦ d | some n ↦ n ]

-- `tryAcquireKernelLock`; `none` is success, else the `errno`
pub try_acquire_kernel_lock : Option Errno → ℕ → ℕ → Kernel → Option Errno × Kernel
try_acquire_kernel_lock (some e) fd inode k = (some e, k)
try_acquire_kernel_lock none fd inode k = elim (k.owner inode) [
  | none ↦ (none, record k { owner = update k.owner inode (some fd) })
  | some other ↦ if eqb other fd then (none, k) else (some eagain, k)
]

abbrev pub disown : ℕ → Option ℕ → Option ℕ
disown fd none = none
disown fd (some o) = if eqb o fd then none else some o

-- Unlocking takes the lock from the descriptor if that has it; closing does so too.
pub release_kernel_lock : ℕ → Kernel → Kernel
release_kernel_lock fd k = record k { owner = λ n. disown fd (k.owner n) }

pub close_file : ℕ → Kernel → Kernel
close_file fd k = record k { owner = λ n. disown fd (k.owner n); files = update k.files fd none }

pub unlink : Text → Kernel → Kernel
unlink path k = record k { links = link k.links path none }

pub open_failure : Errno → Error
open_failure eacces = build_lock_permission
open_failure enospc = build_lock_disk_full
open_failure enoent = build_lock_directory
open_failure _ = build_lock_error

pub lock_failure : Errno → Error
lock_failure ewouldblock = build_in_progress
lock_failure eagain = build_in_progress
lock_failure eacces = build_in_progress
lock_failure _ = build_lock_error

-- `acquireLock`. `waitForLock` is ignored here, as in the source.
locked_file : BuildLock → ℕ → Option Errno × Kernel → Result (Unit {0}) × BuildLock × Kernel
locked_file l fd (none, k) = (ok tt, record l { is_locked = true; file_descriptor = some fd }, k)
locked_file l fd (some e, k) =
    (err (lock_failure e), record l { file_descriptor = none }, close_file fd k)

opened_file : Faults → Option Errno → BuildLock → Kernel → Result (Unit {0}) × BuildLock × Kernel
unfolding locked_file
opened_file faults (some e) l k = (err (open_failure e), record l { file_descriptor = none }, k)
opened_file faults none l k = locked_file l k.next_file (
    try_acquire_kernel_lock faults.lock_error k.next_file (inode_at k l.lock_file_path)
      (open_file l.lock_file_path k))

pub acquire_lock : Faults → Bool → BuildLock → Kernel → Result (Unit {0}) × BuildLock × Kernel
unfolding opened_file
acquire_lock faults wait l k =
    if faults.parent_exists
    then opened_file faults faults.open_error l k
    else (err build_lock_directory, l, k)

-- the two constructors, the first with `wait` set
pub construct : Faults → Bool → Text → Kernel → Result (Unit {0}) × BuildLock × Kernel
construct faults wait output_path k =
    acquire_lock faults wait
      (record {
        lock_file_path = output_path ++ bytes ".building";
        is_locked = false;
        file_descriptor = none;
      })
      k

-- unlink first, then unlock, then close
pub cleanup_files : Text → Option ℕ → Kernel → Kernel
cleanup_files path none k = k
cleanup_files path (some fd) k = close_file fd (release_kernel_lock fd (unlink path k))

pub cleanup : BuildLock → Kernel → BuildLock × Kernel
unfolding cleanup_files close_file release_kernel_lock unlink
cleanup l k =
    if l.is_locked
    then (
      record l { is_locked = false; file_descriptor = none },
      cleanup_files l.lock_file_path l.file_descriptor k,
    )
    else (l, k)

pub release : BuildLock → Kernel → BuildLock × Kernel
release l k = if l.is_locked then cleanup l k else (l, k)

pub destroy : BuildLock → Kernel → Kernel
destroy l k = if l.is_locked then (cleanup l k).1 else k

-- The new object, and what is left of the old one; moving a string leaves it empty.
pub move_construct : BuildLock → BuildLock × BuildLock
move_construct other =
    (other, record { lock_file_path = []; is_locked = false; file_descriptor = none })

-- Assignment to another object. (Assigning an object to itself changes nothing.)
pub move_assign : BuildLock → BuildLock → Kernel → BuildLock × BuildLock × Kernel
move_assign this other k =
    let after = if this.is_locked then (cleanup this k).1 else k in
    (other, record { lock_file_path = []; is_locked = false; file_descriptor = none }, after)
