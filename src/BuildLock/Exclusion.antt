-- ===== src/BuildLock/Exclusion.antt =====
-- What holds of the processes in every state that they reach.
use drone_db.Base.{ℕ, ◌≡◌, ◌<◌, inl, inr, none, some, arith, Option-cases}
use drone_db.BuildLock.System.{
  idle, holding, System, Step, open_there, open_new, lock_wins, lock_busy, unlinks, unlocks,
  dies_opened, dies_holding, dies_unlinked, Steps, here, next, init, locked_inode, built_inode,
  opened_inode, freed,
}

-- The kernel's owner of an inode is the process that stands between its lock and its unlock.
pub record Inv (s : System) : Type 0 where
  pub owned : (i n : ℕ) → locked_inode (s.pc i) ≡ some n → s.owner n ≡ some i
  pub owner_old : (i n : ℕ) → s.owner n ≡ some i → n < s.next_inode
  pub opened_old : (i n : ℕ) → opened_inode (s.pc i) ≡ some n → n < s.next_inode
  pub linked_old : (n : ℕ) → s.linked ≡ some n → n < s.next_inode

init-Inv : Inv init
init-Inv = record {
  owned = λ i n e. cc;
  owner_old = λ i n e. cc;
  opened_old = λ i n e. cc;
  linked_old = λ n e. cc;
}

Step-Inv : {s t : System} → Step s t → Inv s → Inv t
Step-Inv {s} (open_there i {n} p l) v = record {
  owned = λ j m e. ground (arith, v.owned j m);
  owner_old = λ j m e. ground (arith, v.owner_old j m);
  opened_old = λ j m e. ground (arith, v.opened_old j m, v.linked_old n);
  linked_old = λ m e. ground (arith, v.linked_old m);
}
Step-Inv {s} (open_new i p l) v = record {
  owned = λ j m e. ground (arith, v.owned j m);
  owner_old = λ j m e. ground (arith, v.owner_old j m);
  opened_old = λ j m e. ground (arith, v.opened_old j m);
  linked_old = λ m e. ground (arith, v.linked_old m);
}
Step-Inv {s} (lock_wins i {n} p o) v = record {
  owned = λ j m e. ground (arith, v.owned j m, v.owned j n);
  owner_old = λ j m e. ground (arith, v.owner_old j m, v.opened_old i n);
  opened_old = λ j m e. ground (arith, v.opened_old j m);
  linked_old = λ m e. ground (arith, v.linked_old m);
}
Step-Inv {s} (lock_busy i k {n} p o) v = record {
  owned = λ j m e. ground (arith, v.owned j m);
  owner_old = λ j m e. ground (arith, v.owner_old j m);
  opened_old = λ j m e. ground (arith, v.opened_old j m);
  linked_old = λ m e. ground (arith, v.linked_old m);
}
Step-Inv {s} (unlinks i {n} p) v = record {
  owned = λ j m e. ground (arith, v.owned j m);
  owner_old = λ j m e. ground (arith, v.owner_old j m);
  opened_old = λ j m e. ground (arith, v.opened_old j m);
  linked_old = λ m e. cc;
}
Step-Inv {s} (unlocks i {n} p) v = record {
  owned = λ j m e. ground (arith, v.owned j m, v.owned i n, v.owned j n);
  owner_old = λ j m e. ground (arith, v.owner_old j m);
  opened_old = λ j m e. ground (arith, v.opened_old j m);
  linked_old = λ m e. ground (arith, v.linked_old m);
}
Step-Inv {s} (dies_opened i {n} p) v = record {
  owned = λ j m e. ground (arith, v.owned j m);
  owner_old = λ j m e. ground (arith, v.owner_old j m);
  opened_old = λ j m e. ground (arith, v.opened_old j m);
  linked_old = λ m e. ground (arith, v.linked_old m);
}
Step-Inv {s} (dies_holding i {n} p) v = record {
  owned = λ j m e. ground (arith, v.owned j m, v.owned i n, v.owned j n);
  owner_old = λ j m e. ground (arith, v.owner_old j m);
  opened_old = λ j m e. ground (arith, v.opened_old j m);
  linked_old = λ m e. ground (arith, v.linked_old m);
}
Step-Inv {s} (dies_unlinked i {n} p) v = record {
  owned = λ j m e. ground (arith, v.owned j m, v.owned i n, v.owned j n);
  owner_old = λ j m e. ground (arith, v.owner_old j m);
  opened_old = λ j m e. ground (arith, v.opened_old j m);
  linked_old = λ m e. ground (arith, v.linked_old m);
}

pub Steps-Inv : {s : System} → Steps init s → Inv s
Steps-Inv here = init-Inv
Steps-Inv (next r st) = Step-Inv st (Steps-Inv r)

-- At most one process at a time has the lock of one inode.
pub one_owner_of_inode :
    {s : System} (i j n : ℕ)
    → Steps init s
    → locked_inode (s.pc i) ≡ some n
    → locked_inode (s.pc j) ≡ some n
    → i ≡ j
one_owner_of_inode i j n r p q =
    ground (arith, (Steps-Inv r).owned i n p, (Steps-Inv r).owned j n q)

-- No lock file is removed while another process stands between its `open` and its `fcntl`.
abbrev pub IsQuiet : {s t : System} → Step s t → Type 0
IsQuiet {s} (unlinks i p) = (j : ℕ) → opened_inode (s.pc j) ≡ none
IsQuiet _ = Unit

pub data QuietSteps (s : System) : System → Type 0 where
  start : QuietSteps s s
  later : {t u : System} → QuietSteps s t → (st : Step t u) → IsQuiet st → QuietSteps s u

pub Steps-of_quiet : {s t : System} → QuietSteps s t → Steps s t
Steps-of_quiet start = here
Steps-of_quiet (later r st q) = next (Steps-of_quiet r) st

-- Then the file that a process has opened, or builds under, is the one that the path names.
record IsCurrent (s : System) : Type 0 where
  opened_linked : (i n : ℕ) → opened_inode (s.pc i) ≡ some n → s.linked ≡ some n
  built_linked : (i n : ℕ) → built_inode (s.pc i) ≡ some n → s.linked ≡ some n

Step-IsCurrent : {s t : System} (st : Step s t) → IsQuiet st → Inv s → IsCurrent s → IsCurrent t
Step-IsCurrent (open_there i {n} p l) q v c = record {
  opened_linked = λ j m e. ground (arith, c.opened_linked j m);
  built_linked = λ j m e. ground (arith, c.built_linked j m);
}
Step-IsCurrent (open_new i p l) q v c = record {
  opened_linked = λ j m e. ground (arith, c.opened_linked j m);
  built_linked = λ j m e. ground (arith, c.built_linked j m);
}
Step-IsCurrent (lock_wins i {n} p o) q v c = record {
  opened_linked = λ j m e. ground (arith, c.opened_linked j m);
  built_linked = λ j m e. ground (arith, c.built_linked j m, c.opened_linked i m);
}
Step-IsCurrent (lock_busy i k {n} p o) q v c = record {
  opened_linked = λ j m e. ground (arith, c.opened_linked j m);
  built_linked = λ j m e. ground (arith, c.built_linked j m);
}
Step-IsCurrent (unlinks i {n} p) q v c = record {
  opened_linked = λ j m e. ground (arith, q j);
  built_linked =
      λ j m e. ground (arith, c.built_linked j m, c.built_linked i n, v.owned i n, v.owned j n);
}
Step-IsCurrent (unlocks i {n} p) q v c = record {
  opened_linked = λ j m e. ground (arith, c.opened_linked j m);
  built_linked = λ j m e. ground (arith, c.built_linked j m);
}
Step-IsCurrent (dies_opened i {n} p) q v c = record {
  opened_linked = λ j m e. ground (arith, c.opened_linked j m);
  built_linked = λ j m e. ground (arith, c.built_linked j m);
}
Step-IsCurrent (dies_holding i {n} p) q v c = record {
  opened_linked = λ j m e. ground (arith, c.opened_linked j m);
  built_linked = λ j m e. ground (arith, c.built_linked j m);
}
Step-IsCurrent (dies_unlinked i {n} p) q v c = record {
  opened_linked = λ j m e. ground (arith, c.opened_linked j m);
  built_linked = λ j m e. ground (arith, c.built_linked j m);
}

QuietSteps-IsCurrent : {s : System} → QuietSteps init s → IsCurrent s
QuietSteps-IsCurrent start = record { opened_linked = λ i n e. cc; built_linked = λ i n e. cc }
QuietSteps-IsCurrent (later r st q) =
    Step-IsCurrent st q (Steps-Inv (Steps-of_quiet r)) (QuietSteps-IsCurrent r)

-- As long as no lock file is removed while a process stands between its `open` and its `fcntl`, no
-- two processes hold the build lock at the same time.
pub mutual_exclusion :
    {s : System} (i j n m : ℕ) → QuietSteps init s → s.pc i ≡ holding n → s.pc j ≡ holding m → i ≡ j
mutual_exclusion i j n m r p q =
    let c = QuietSteps-IsCurrent r in
    let v = Steps-Inv (Steps-of_quiet r) in
    ground (arith, c.built_linked i n, c.built_linked j m, v.owned i n, v.owned j n)

pub fresh_owner : (s : System) → Inv s → s.owner s.next_inode ≡ none
fresh_owner s v = elim (Option-cases (s.owner s.next_inode)) [
  | inl e ↦ e
  | inr (i, e) ↦ absurd (omega (arith, v.owner_old i s.next_inode e))
]

-- A holder that dies leaves its file behind and blocks nobody: an idle process can then take the
-- lock of that same file.
pub orphan_is_reclaimed :
    {s : System} (i j n : ℕ)
    → Steps init s
    → s.pc i ≡ holding n
    → s.linked ≡ some n
    → s.pc j ≡ idle
    → (t : System) × Steps (freed s i n) t × (t.pc j ≡ holding n) × (t.linked ≡ some n)
orphan_is_reclaimed i j n r p l q = (
  _,
  next (next here (open_there j (ground arith) l))
      (lock_wins j {n = n} (ground arith) (ground arith)),
  ground arith,
  l,
)
