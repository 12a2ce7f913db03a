-- ===== src/Transaction.antt =====
-- library/transaction.cpp and include/transaction.h: BEGIN, COMMIT and ROLLBACK as an object whose
-- destructor rolls back.
-- The connection is the committed state and, within a transaction, the working state. Whether the
-- retried BEGIN or COMMIT throws in the end is an argument (see Retry.antt). SQLite refuses a BEGIN
-- within a transaction, and a COMMIT or ROLLBACK outside one.
pub mod Atomic
mod Tests
use drone_db.Base.{
  Bool, true, false, ◌||◌, not, Option, none, some, if◌then◌else◌, Error, Result, ok, err, db_error,
  sql_error,
}

pub record Connection (S : Type 0) : Type 0 where
  pub committed : S
  pub working : Option S

pub record Transaction : Type 0 where
  pub attached : Bool  -- `db_` is not null
  pub finished : Bool

-- `none` for a BEGIN or COMMIT that comes through
abbrev pub Fault : Type 0
Fault = Option Error

unfoldable pub finish_if : Transaction → Result (Unit {0}) → Transaction
finish_if t (ok _) = record t { finished = true }
finish_if t (err _) = t

module _ {S : Type 0} where
  unfoldable pub exec_begin : Fault → Connection S → Result (Unit {0}) × Connection S
  exec_begin (some e) c = (err e, c)
  exec_begin none c = elim c.working [
    | none ↦ (ok tt, record c { working = some c.committed })
    | some _ ↦ (err sql_error, c)
  ]

  unfoldable pub exec_commit : Fault → Connection S → Result (Unit {0}) × Connection S
  exec_commit (some e) c = (err e, c)
  exec_commit none c = elim c.working [
    | none ↦ (err sql_error, c)
    | some s ↦ (ok tt, record { committed = s; working = none })
  ]

  unfoldable pub exec_rollback : Connection S → Result (Unit {0}) × Connection S
  exec_rollback c = elim c.working [
    | none ↦ (err sql_error, c)
    | some _ ↦ (ok tt, record c { working = none })
  ]

  -- the object that the constructor leaves, or what it throws
  unfoldable pub construct : Bool → Fault → Connection S → Result Transaction × Connection S
  unfolding exec_begin
  construct has_db fault c =
      if has_db
      then (
        elim (exec_begin fault c).0 [
          | ok _ ↦ ok (record { attached = true; finished = false })
          | err e ↦ err e
        ],
        (exec_begin fault c).1,
      )
      else (err db_error, c)

  -- What a rollback in the destructor throws is logged and dropped.
  unfoldable pub destroy : Transaction → Connection S → Connection S
  unfolding exec_rollback
  destroy t c = if t.finished || not t.attached then c else (exec_rollback c).1

  unfoldable pub commit :
      Transaction → Fault → Connection S → Result (Unit {0}) × Transaction × Connection S
  unfolding exec_commit finish_if
  commit t fault c =
      if t.finished
      then (err db_error, t, c)
      else ((exec_commit fault c).0, finish_if t (exec_commit fault c).0, (exec_commit fault c).1)

  pub rollback : Transaction → Connection S → Result (Unit {0}) × Transaction × Connection S
  unfolding exec_rollback finish_if
  rollback t c =
      if t.finished
      then (err db_error, t, c)
      else ((exec_rollback c).0, finish_if t (exec_rollback c).0, (exec_rollback c).1)

-- The new object and what is left of the old one.
pub move_construct : Transaction → Transaction × Transaction
move_construct t = (t, record { attached = false; finished = true })

abbrev current : {S : Type 0} → Connection S → S
current c = elim c.working [ none ↦ c.committed | some s ↦ s ]

-- The use of a transaction all over dbops.cpp and metamanager.cpp: begin, write, commit, and the
-- destructor at the end of the block, whether by `return` or by an exception. `body` writes to the
-- working state; what it wrote before it threw is in its state.
module _ {S A : Type 0} where
  committing : Result A → Transaction → Fault → Connection S → Result A × Connection S
  unfolding commit destroy
  committing (err e) t fault c = (err e, destroy t c)
  committing (ok a) t fault c = (
    elim (commit t fault c).0 [ ok _ ↦ ok a | err e ↦ err e ],
    destroy (commit t fault c).1 (commit t fault c).2,
  )

  within : (S → Result A × S) → Fault → Result Transaction × Connection S → Result A × Connection S
  unfolding committing
  within body fault (err e, c) = (err e, c)
  within body fault (ok t, c) =
      committing (body (current c)).0 t fault (record c { working = some (body (current c)).1 })

  unfoldable pub in_transaction :
      Fault → Fault → (S → Result A × S) → Connection S → Result A × Connection S
  unfolding within construct
  in_transaction begin_fault commit_fault body c =
      within body commit_fault (construct true begin_fault c)
