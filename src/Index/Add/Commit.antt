-- ===== src/Index/Add/Commit.antt =====
-- The third phase, `commitAddEntries`: what is computed is written in one transaction, unless the
-- file or the row has changed meanwhile.
use drone_db.Base.{
  ℕ, Bool, true, false, ◌&&◌, ◌||◌, not, Option, none, some, List, [], ◌∷◌, Text, same, eqb,
  if◌then◌else◌, Result, ok, err, ◌>>=◌,
}
use drone_db.Transaction.{Connection, Transaction, Fault, construct, destroy, commit}
use drone_db.Index.Table.{Entry, Table, find_row, do_update, insert_row}
use drone_db.Index.Check.{Files}
use drone_db.Index.Add.Plan.{ComputedAddItem}

-- What is decided for one item; `write` says whether a row is inserted.
pub data Verdict : Type 0 where
  conflicting : Verdict
  already_there : Verdict
  write : Bool → Verdict

abbrev pub differs : Option ℕ → ℕ → Bool
differs none n = true
differs (some m) n = not (eqb m n)

-- `file_size` is asked only of what is no directory.
abbrev pub size_differs : Files → Text → ℕ → Bool
size_differs f p size = if f.is_directory p then false else differs (f.size_of p) size

unfoldable pub has_changed : Files → Text → ComputedAddItem → Bool
has_changed f p ci = differs (f.mtime_of p) ci.observed_mtime || size_differs f p ci.observed_size

abbrev pub recheck : ComputedAddItem → Option Entry → Verdict
recheck ci none = if ci.is_update then conflicting else write true
recheck ci (some row) =
    if ci.is_update
    then write true
    else if eqb row.mtime ci.entry.mtime && same row.hash ci.entry.hash
    then already_there
    else write false

unfoldable pub verdict : Files → Text → ComputedAddItem → Table → Verdict
unfolding has_changed
verdict f p ci t = if has_changed f p ci then conflicting else recheck ci (find_row ci.entry.path t)

pub record Batch : Type 0 where
  pub tentative : List (Entry × Bool)
  pub conflicts : List Text
  pub unchanged : List Text
  pub canceled : Bool

abbrev pub nothing_done : Batch
nothing_done = record { tentative = []; conflicts = []; unchanged = []; canceled = false }

-- The statement that is run, an INSERT or an UPDATE.
abbrev pub write_row : Bool → Entry → Table → Result Table
write_row true e t = insert_row e t
write_row false e t = ok (do_update e t)

-- `callback` is null, or is told of each row and says whether to go on.
abbrev pub goes_on : Option (Entry → Bool → Bool) → Entry → Bool → Bool
goes_on none e inserted = true
goes_on (some callback) e inserted = callback e inserted

abbrev pub with_conflict : Text → Batch × Table → Batch × Table
with_conflict p (b, t) = (record b { conflicts = p ∷ b.conflicts }, t)

abbrev pub with_unchanged : Text → Batch × Table → Batch × Table
with_unchanged p (b, t) = (record b { unchanged = p ∷ b.unchanged }, t)

abbrev pub with_row : Entry × Bool → Batch × Table → Batch × Table
with_row row (b, t) = (record b { tentative = row ∷ b.tentative }, t)

abbrev pub map_ok {ℓ κ} : {A : Type ℓ} {B : Type κ} → (A → B) → Result A → Result B
map_ok f (ok a) = ok (f a)
map_ok f (err e) = err e

abbrev pub after_row :
    Bool → Entry × Bool → (Table → Result (Batch × Table)) → Table → Result (Batch × Table)
after_row true row rest t = map_ok (with_row row) (rest t)
after_row false row rest t = ok (record nothing_done { tentative = row ∷ []; canceled = true }, t)

module _ (absolute : Text → Text) (files : Files) (callback : Option (Entry → Bool → Bool)) where
  -- An item, and the items after it as a function of the table.
  abbrev pub commit_item :
      ComputedAddItem → Table → (Table → Result (Batch × Table)) → Verdict → Result (Batch × Table)
  commit_item ci t rest conflicting = map_ok (with_conflict (absolute ci.entry.path)) (rest t)
  commit_item ci t rest already_there = map_ok (with_unchanged ci.entry.path) (rest t)
  commit_item ci t rest (write inserted) = write_row inserted ci.entry t >>= λ t'.
      after_row (goes_on callback ci.entry inserted) (ci.entry, inserted) rest t'

  unfoldable pub commit_loop : List ComputedAddItem → Table → Result (Batch × Table)
  commit_loop [] t = ok (nothing_done, t)
  commit_loop (ci ∷ cis) t =
      commit_item ci t (commit_loop cis) (verdict files (absolute ci.entry.path) ci t)

  -- The writes become visible only by the commit; a batch that the callback cancels is rolled back
  -- by the destructor and reports no row. The conflicts and the unchanged paths stay reported.
  abbrev pub none_accepted : Batch → Batch
  none_accepted b = record b { tentative = [] }

  unfoldable pub end_batch :
      Fault
      → Transaction
      → Connection Table
      → Result (Batch × Table)
      → Result Batch × Connection Table
  end_batch fault tx c (err e) = (err e, destroy tx c)
  end_batch fault tx c (ok (b, t)) =
      let written = record c { working = some t } in
      if b.canceled then (ok (none_accepted b), destroy tx written) else (
        elim (commit tx fault written).0 [ ok _ ↦ ok b | err e ↦ err e ],
        destroy (commit tx fault written).1 (commit tx fault written).2,
      )

  begun :
      Fault
      → List ComputedAddItem
      → Result Transaction × Connection Table
      → Result Batch × Connection Table
  unfolding end_batch commit_loop
  begun fault cis (err e, c) = (err e, c)
  begun fault cis (ok tx, c) = end_batch fault tx c (commit_loop cis c.committed)

  unfoldable pub commit_add_entries :
      Fault → Fault → List ComputedAddItem → Connection Table → Result Batch × Connection Table
  unfolding begun
  commit_add_entries begin_fault commit_fault [] c = (ok nothing_done, c)
  commit_add_entries begin_fault commit_fault (ci ∷ cis) c =
      begun commit_fault (ci ∷ cis) (construct true begin_fault c)
