-- ===== src/Index/Add/Outcome.antt =====
-- How the commit phase ends: what is kept, and the row that is there already.
use drone_db.Base.{
  ◌≡◌, refl, ap, ◌⊎◌, inl, inr, Bool, true, false, ◌||◌, not, Option, none, some, List, [], ◌∷◌,
  arith, Text, same, Error, Result, ok, err, sql_error,
}
use mathlib.Core.Path.{fun_ext}
use drone_db.Transaction.{Connection, Fault, construct, destroy, commit, exec_begin}
use drone_db.Index.Table.{Entry, Table, insert_row, has_row}
use drone_db.Index.Check.{Files}
use drone_db.Index.Add.Plan.{ComputedAddItem}
use drone_db.Index.Add.Commit.{
  verdict, has_changed, Batch, nothing_done, commit_loop, commit_add_entries, end_batch,
}
use drone_db.Index.Add.CommitLaws.{
  conflict_step, unchanged_step, row_step, stop_step, loop_step, loop_nil, write_row_lem,
}

-- Each flag says whether its row was new: to the table, and to the rows before it.
abbrev pub MarksInserts : (Text → Bool) → List (Entry × Bool) → Type 0
MarksInserts known [] = Unit
MarksInserts known ((e, flag) ∷ rows) =
    (flag ≡ not (known e.path)) × MarksInserts (λ p. same e.path p || known p) rows

MarksInserts-cong :
    (f g : Text → Bool) (rows : List (Entry × Bool))
    → ((p : Text) → f p ≡ g p)
    → MarksInserts f rows
    → MarksInserts g rows
MarksInserts-cong f g rows h m = rw (← fun_ext h) m

module _ (absolute : Text → Text) (files : Files) (callback : Option (Entry → Bool → Bool)) where
  -- The Boolean that `AddResult::entries` and the callback get with an entry is true exactly where
  -- the entry's row is new, and false where a row of its path was updated.
  pub accepted_flag-MarksInserts :
      (cis : List ComputedAddItem) (t t' : Table) (b : Batch)
      → commit_loop absolute files callback cis t ≡ ok (b, t')
      → MarksInserts (λ p. has_row p t) b.tentative
  accepted_flag-MarksInserts [] t t' b h = rw ((loop_nil absolute files callback t t' b h).0) tt
  accepted_flag-MarksInserts (ci ∷ cis) t t' b h =
      elim (loop_step absolute files callback ci cis t t' b h) [
        | conflict_step b0 r e ↦ rw e (accepted_flag-MarksInserts cis t t' b0 r)
        | unchanged_step b0 r e ↦ rw e (accepted_flag-MarksInserts cis t t' b0 r)
        | row_step b0 inserted t1 i w r e ↦ rw e (
          i,
          MarksInserts-cong (λ p. has_row p t1) (λ p. same ci.entry.path p || has_row p t)
              b0.tentative (λ p. ground (arith, write_row_lem inserted ci.entry t t1 p i w))
              (accepted_flag-MarksInserts cis t1 t' b0 r),
        )
        | stop_step inserted i w g e ↦ rw e (i, tt)
      ]

  pub loop_throws :
      (ci : ComputedAddItem) (cis : List ComputedAddItem) (t : Table)
      → ci.is_update ≡ true
      → has_changed files (absolute ci.entry.path) ci ≡ false
      → has_row ci.entry.path t ≡ true
      → commit_loop absolute files callback (ci ∷ cis) t ≡ err sql_error
  unfolding commit_loop verdict insert_row
  loop_throws ci cis t u f r = ground arith

  -- A file that is in the index, was planned as an update, and is as it was when it was computed:
  -- where BEGIN succeeds, its commit runs an INSERT against the row that is there, so that the whole batch throws, and
  -- the table stays as it was.
  pub update_of_indexed_file_throws :
      (ci : ComputedAddItem) (cis : List ComputedAddItem) (commit_fault : Fault) (t : Table)
      → ci.is_update ≡ true
      → has_changed files (absolute ci.entry.path) ci ≡ false
      → has_row ci.entry.path t ≡ true
      → commit_add_entries absolute files callback none commit_fault
          (ci ∷ cis)
          (record { committed = t; working = none })
        ≡ (err sql_error, record { committed = t; working = none })
  unfolding commit_add_entries construct exec_begin destroy end_batch
  update_of_indexed_file_throws ci cis commit_fault t u f r =
      ap
        (end_batch absolute files callback commit_fault
          (record { attached = true; finished = false })
          (record { committed = t; working = some t }))
        (loop_throws ci cis t u f r)

  -- What the commit phase does to a connection outside a transaction.
  abbrev pub CommitsOrNot : List ComputedAddItem → Table → Result Batch × Connection Table → Type 0
  CommitsOrNot cis t (r, c) =
      (c.working ≡ none)
      × (((e : Error) × (r ≡ err e) × (c.committed ≡ t))
          ⊎ ((b : Batch) × (r ≡ ok (record b { tentative = [] }))
              × (b.canceled ≡ true)
              × (c.committed ≡ t)
              × ((t' : Table) × (commit_loop absolute files callback cis t ≡ ok (b, t'))))
          ⊎ ((b : Batch) × (r ≡ ok b)
              × (b.canceled ≡ false)
              × (commit_loop absolute files callback cis t ≡ ok (b, c.committed))))

  ended_ok :
      (fault : Fault) (cis : List ComputedAddItem) (t t' : Table) (rows : List (Entry × Bool))
      (conflicts unchanged : List Text) (canceled : Bool)
      → commit_loop absolute files callback cis t
        ≡ ok (
          record {
            tentative = rows;
            conflicts = conflicts;
            unchanged = unchanged;
            canceled = canceled;
          },
          t',
        )
      → CommitsOrNot cis t (
          end_batch absolute files callback fault
            (record { attached = true; finished = false })
            (record { committed = t; working = some t })
            (ok (
              record {
                tentative = rows;
                conflicts = conflicts;
                unchanged = unchanged;
                canceled = canceled;
              },
              t',
            )))
  unfolding end_batch destroy commit
  ended_ok fault cis t t' rows conflicts unchanged true h = (
    refl,
    inr (
        inl (
          record {
            tentative = rows;
            conflicts = conflicts;
            unchanged = unchanged;
            canceled = true;
          },
          refl,
          refl,
          refl,
          (t', h),
        )),
  )
  ended_ok (some e) cis t t' rows conflicts unchanged false h = (refl, inl (e, refl, refl))
  ended_ok none cis t t' rows conflicts unchanged false h = (refl, inr (inr (_, refl, refl, h)))

  ended :
      (fault : Fault) (cis : List ComputedAddItem) (t : Table) (r : Result (Batch × Table))
      → commit_loop absolute files callback cis t ≡ r
      → CommitsOrNot cis t (
          end_batch absolute files callback fault
            (record { attached = true; finished = false })
            (record { committed = t; working = some t })
            r)
  unfolding end_batch destroy
  ended fault cis t (err e) h = (refl, inl (e, refl, refl))
  ended fault cis t (ok (b, t')) h =
      ended_ok fault cis t t' b.tentative b.conflicts b.unchanged b.canceled h

  -- From outside a transaction, the commit phase writes all or nothing and ends outside one: it throws and leaves the table, or was cancelled by the
  -- callback, leaves the table and reports no entry, or commits all that its loop wrote.
  pub commit_all_or_nothing :
      (begin_fault commit_fault : Fault) (cis : List ComputedAddItem) (t : Table)
      → CommitsOrNot cis t (
          commit_add_entries absolute files callback begin_fault commit_fault cis
            (record { committed = t; working = none }))
  unfolding commit_add_entries construct exec_begin commit_loop
  commit_all_or_nothing begin_fault commit_fault [] t =
      (refl, inr (inr (nothing_done, refl, refl, refl)))
  commit_all_or_nothing (some e) commit_fault (ci ∷ cis) t = (refl, inl (e, refl, refl))
  commit_all_or_nothing none commit_fault (ci ∷ cis) t =
      ended commit_fault (ci ∷ cis) t (commit_loop absolute files callback (ci ∷ cis) t) refl
