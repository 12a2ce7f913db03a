-- ===== src/BuildLock/Overlap.antt =====
-- A file that is removed between another process's `open` and its `fcntl` lets two processes build.
use drone_db.Base.{ℕ, ◌≡◌, refl, ◌≢◌, arith}
use drone_db.BuildLock.System.{
  idle, opened, holding, System, open_new, lock_wins, unlinks, unlocks, Steps, here, next, init,
}
use drone_db.BuildLock.Exclusion.{Steps-Inv, fresh_owner}

-- Whenever one process builds and a second has opened the lock file but not yet locked it, the
-- first's release lets the second and any idle third process hold the build lock together.
pub release_during_open_breaks_exclusion :
    {s : System} (i j k n : ℕ)
    → Steps init s
    → s.pc i ≡ holding n
    → s.pc j ≡ opened n
    → s.pc k ≡ idle
    → (t : System) × Steps s t × (t.pc j ≡ holding n) × (t.pc k ≡ holding s.next_inode) × (j ≢ k)
release_during_open_breaks_exclusion {s} i j k n r p q z =
    let fresh = fresh_owner s (Steps-Inv r) in
    let bound = (Steps-Inv r).opened_old j n (ground arith) in
    (
      _,
      next
          (next
            (next (next (next here (unlinks i p)) (unlocks i {n = n} (ground arith)))
              (lock_wins j {n = n} (ground arith) (ground arith)))
            (open_new k (ground arith) refl))
          (lock_wins k {n = s.next_inode} (ground arith) (ground arith)),
      ground arith,
      ground arith,
      ground arith,
    )
