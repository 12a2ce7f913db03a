-- ===== src/Index/Add/Passes.antt =====
-- `addToIndex` and `addToIndexEx`.
use drone_db.Base.{
  ℕ, zero, suc, Bool, true, Option, List, [], ◌∷◌, ◌++◌, map, Text, bytes, Result, ok, err, ◌>>=◌,
}
use drone_db.Transaction.{Connection, Fault}
use drone_db.Index.Table.{Entry, Table}
use drone_db.Index.Check.{Files}
use drone_db.Index.Add.Plan.{AddItemError, ComputePhase, plan_add_candidates, compute_add_entries}
use drone_db.Index.Add.Commit.{Batch, commit_add_entries}

-- `int maxConflictRetries`, with the sign taken apart
pub data Retries : Type 0 where
  negative : Retries
  at_most : ℕ → Retries

pub record AddOptions : Type 0 where
  pub stop_on_error : Bool
  pub max_conflict_retries : Retries

abbrev pub default_options : AddOptions
default_options = record { stop_on_error = true; max_conflict_retries = at_most 2 }

pub record AddResult : Type 0 where
  pub entries : List (Entry × Bool)
  pub unchanged : List Text
  pub errors : List AddItemError

-- What one pass meets: the file system when it computes and when it commits, what other writers make
-- of the table in between, and how its BEGIN and COMMIT end.
pub record Pass : Type 0 where
  pub at_compute : Files
  pub at_commit : Files
  pub others : Table → Table
  pub begin_fault : Fault
  pub commit_fault : Fault

abbrev pub clamped : Retries → ℕ
clamped negative = 2
clamped (at_most n) = n

abbrev pub extended : AddResult → ComputePhase → Batch → AddResult
extended r c b = record {
  entries = r.entries ++ b.tentative;
  unchanged = r.unchanged ++ c.unchanged ++ b.unchanged;
  errors = r.errors ++ c.errors;
}

abbrev pub conflict_error : Text → AddItemError
conflict_error rel = record { path = rel; code = bytes "CONFLICT" }

-- The result so far, the paths that are left, and the connection.
abbrev pub State : Type 0
State = AddResult × List Text × Connection Table

module _ (relative_to absolute : Text → Text) (parse_entry : Files → Text → Entry → Result Entry)
    (callback : Option (Entry → Bool → Bool)) where
  abbrev pub after_commit :
      AddResult → ComputePhase → Result Batch × Connection Table → Result State
  after_commit r c (err e, conn) = err e
  after_commit r c (ok b, conn) = ok (extended r c b, b.conflicts, conn)

  -- One pass: plan on the table as it is, compute, and commit on the table as others left it.
  unfoldable pub one_pass : Bool → Pass → AddResult → List Text → Connection Table → Result State
  one_pass stop_on_error pass r paths conn =
      compute_add_entries parse_entry pass.at_compute stop_on_error
        (plan_add_candidates relative_to conn.committed paths)
      >>= λ c. after_commit r c (
          commit_add_entries absolute pass.at_commit callback pass.begin_fault pass.commit_fault
            c.computed (record conn { committed = pass.others conn.committed }))

  -- `for (pass = 0; pass <= maxRetries && !pathList.empty(); ++pass)`: at most `fuel` passes.
  unfoldable pub pass_loop : ℕ → Bool → (ℕ → Pass) → ℕ → State → Result State
  pass_loop zero stop_on_error passes n s = ok s
  pass_loop (suc fuel) stop_on_error passes n (r, [], conn) = ok (r, [], conn)
  pass_loop (suc fuel) stop_on_error passes n (r, p ∷ ps, conn) =
      one_pass stop_on_error (passes n) r (p ∷ ps) conn >>= λ s.
      pass_loop fuel stop_on_error passes (suc n) s

  abbrev pub report_conflicts : State → AddResult × Connection Table
  report_conflicts (r, left, conn) =
      (record r { errors = r.errors ++ map (λ p. conflict_error (relative_to p)) left }, conn)

  -- `path_list` is what `getIndexPathList` makes of the arguments.
  unfoldable pub add_to_index_ex :
      List Text
      → AddOptions
      → (ℕ → Pass)
      → AddResult
      → Connection Table
      → Result (AddResult × Connection Table)
  unfolding pass_loop
  add_to_index_ex path_list options passes r conn =
      pass_loop (suc (clamped options.max_conflict_retries)) options.stop_on_error passes 0
        (r, path_list, conn)
      >>= λ s. ok (report_conflicts s)

  abbrev pub only_connection : Result Batch × Connection Table → Result (Connection Table)
  only_connection (err e, conn) = err e
  only_connection (ok b, conn) = ok conn

  -- One pass that stops on errors and reports nothing.
  unfoldable pub add_to_index : List Text → Pass → Connection Table → Result (Connection Table)
  add_to_index path_list pass conn =
      compute_add_entries parse_entry pass.at_compute true
        (plan_add_candidates relative_to conn.committed path_list)
      >>= λ c. only_connection (
          commit_add_entries absolute pass.at_commit callback pass.begin_fault pass.commit_fault
            c.computed (record conn { committed = pass.others conn.committed }))
