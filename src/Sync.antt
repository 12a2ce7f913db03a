-- ===== src/Sync.antt =====
-- `syncIndex` and `rescanIndex` of library/dbops.cpp: the rows are brought up to date with the files.
-- `absolute` joins the root directory to a path, and `parse_entry` is `parseEntry` of
-- library/entry.cpp, which reads a file's metadata.
pub mod Rows
pub mod Outcome
pub mod Rescan
mod Tests
use drone_db.Base.{
  ℕ, ◌≡◌, Bool, true, false, ◌&&◌, ◌||◌, not, Option, none, some, List, [], ◌∷◌, Text, same, any,
  keep, eqb, if◌then◌else◌, Error, Result, ok, err, fs_error,
}
use drone_db.Index.Table.{EntryType, Entry, Table, empty_entry, do_update, delete_row}
use drone_db.Index.EntryTypes.{code_of}
use drone_db.Index.Check.{
  Files, FileStatus, not_indexed, deleted, modified, not_modified, check_update,
}
use drone_db.Transaction.{
  Connection, Transaction, Fault, construct, commit, destroy, in_transaction,
}
use drone_db.Meta.{is_blank}
use drone_db.Move.{Stored, is_folder, check_delete_meta}

-- The tables, and the build folders by hash.
abbrev pub Disk : Type 0
Disk = Stored × (Text → Bool)

abbrev pub Outcome : Type 0
Outcome = Result (Unit {0}) × Disk

-- `checkDeleteBuild`; the removal of a folder in `stuck` throws.
unfoldable pub check_delete_build :
    (Text → Bool) → Text → (Text → Bool) → Result (Unit {0}) × (Text → Bool)
check_delete_build stuck hash builds =
    if is_blank hash || not (builds hash)
    then (ok tt, builds)
    else if stuck hash
    then (err fs_error, builds)
    else (ok tt, λ b. builds b && not (same hash b))

abbrev pub and_then : Outcome → (Disk → Outcome) → Outcome
and_then (err e, d) next = (err e, d)
and_then (ok _, d) next = next d

module _ (absolute : Text → Text) (parse_entry : Files → Text → Entry → Result Entry)
    (files : Files) (stuck : Text → Bool) where
  abbrev pub after_build : Entry → Stored → Result (Unit {0}) × (Text → Bool) → Outcome
  after_build row s (err e, builds) = (err e, (s, builds))
  after_build row s (ok _, builds) =
      (ok tt, (record s { metas = check_delete_meta row.path s.metas }, builds))

  abbrev pub after_parse : Disk → Result Entry → Outcome
  after_parse d (err e) = (err e, d)
  after_parse (s, builds) (ok e) = (ok tt, (record s { entries = do_update e s.entries }, builds))

  -- One row of the cursor.
  abbrev pub sync_row : Entry → Disk → Result (FileStatus × Entry) → Outcome
  sync_row row d (err e) = (err e, d)
  sync_row row (s, builds) (ok (deleted, e)) =
      after_build row (record s { entries = delete_row row.path s.entries })
        (check_delete_build stuck row.hash builds)
  sync_row row d (ok (modified, e)) = after_parse d (parse_entry files (absolute row.path) e)
  sync_row row d (ok (not_modified, e)) = (ok tt, d)
  sync_row row d (ok (not_indexed, e)) = (ok tt, d)

  abbrev pub checked : Entry → Result (FileStatus × Entry)
  checked row = check_update files empty_entry (absolute row.path) row.mtime row.hash

  unfoldable pub sync_loop : Table → Disk → Outcome
  unfolding check_delete_build
  sync_loop [] d = (ok tt, d)
  sync_loop (row ∷ rows) d = and_then (sync_row row d (checked row)) (sync_loop rows)

  -- The cursor passes the rows that the table has when the transaction begins. The transaction does
  -- not bring a build folder back.
  abbrev pub sync_body : (Text → Bool) → Stored → Result (Unit {0}) × Stored
  sync_body builds s = ((sync_loop s.entries (s, builds)).0, (sync_loop s.entries (s, builds)).1.0)

  abbrev pub builds_after : Fault → (Text → Bool) → Stored → Text → Bool
  builds_after none builds s = (sync_loop s.entries (s, builds)).1.1
  builds_after (some e) builds s = builds

  unfoldable pub sync_index :
      Fault
      → Fault
      → Connection Stored × (Text → Bool)
      → (Result (Unit {0}) × Connection Stored) × (Text → Bool)
  unfolding sync_loop
  sync_index begin_fault commit_fault (c, builds) = (
    in_transaction begin_fault commit_fault (sync_body builds) c,
    builds_after begin_fault builds c.committed,
  )

-- What `rescanIndex` tells its callback: the path, whether it went well, and its answer says whether
-- to go on. A null callback always goes on.
abbrev pub Callback : Type 0
Callback = Option (Text → Bool → Bool)

abbrev pub answers : Callback → Text → Bool → Bool
answers none p success = true
answers (some callback) p success = callback p success

-- How the loop ends: at the end of the rows, by the callback, or by an exception.
pub data Scan : Type 0 where
  finished : Table → Scan
  canceled : Scan
  failed : Error → Scan

abbrev pub asks_for : List EntryType → EntryType → Bool
asks_for [] type = true
asks_for (t ∷ ts) type = any (λ u. eqb (code_of u) (code_of type)) (t ∷ ts)

-- the rows of the query: no directory, and of the types that are asked for, or of any
abbrev pub wanted : List EntryType → Entry → Bool
wanted types row = not (is_folder row.type) && asks_for types row.type

module _ (absolute : Text → Text) (parse_entry : Files → Text → Entry → Result Entry)
    (files : Files) (stop_on_error : Bool) (callback : Callback) where
  -- A file that is missing, or whose metadata cannot be read.
  abbrev pub skip_row : Text → Error → Scan → Scan
  skip_row p e rest =
      if not (answers callback p false) then canceled else if stop_on_error then failed e else rest

  abbrev pub update_row : Text → Table → (Table → Scan) → Result Entry → Scan
  update_row p t next (err e) = skip_row p e (next t)
  update_row p t next (ok e) =
      let rest = next (do_update e t) in if answers callback e.path true then rest else canceled

  unfoldable pub rescan_loop : Table → Table → Scan
  rescan_loop [] t = finished t
  rescan_loop (row ∷ rows) t =
      if files.exists (absolute row.path)
      then update_row row.path t (rescan_loop rows)
          (parse_entry files (absolute row.path) empty_entry)
      else skip_row row.path fs_error (rescan_loop rows t)

  -- A cancelled scan returns; what it wrote is rolled back by the destructor.
  unfoldable pub end_scan :
      Fault
      → Transaction
      → Connection Stored
      → Stored
      → Scan
      → Result (Unit {0}) × Connection Stored
  end_scan fault tx c s (failed e) = (err e, destroy tx c)
  end_scan fault tx c s canceled = (ok tt, destroy tx c)
  end_scan fault tx c s (finished t) =
      let written = record c { working = some (record s { entries = t }) } in
      ((commit tx fault written).0, destroy (commit tx fault written).1 (commit tx fault written).2)

  abbrev pub begun_scan :
      Fault
      → List EntryType
      → Result Transaction × Connection Stored
      → Result (Unit {0}) × Connection Stored
  begun_scan fault types (err e, c) = (err e, c)
  begun_scan fault types (ok tx, c) =
      end_scan fault tx c c.committed
        (rescan_loop (keep (wanted types) c.committed.entries) c.committed.entries)

  unfoldable pub rescan_index :
      Fault → Fault → List EntryType → Connection Stored → Result (Unit {0}) × Connection Stored
  unfolding rescan_loop end_scan
  rescan_index begin_fault commit_fault types c =
      begun_scan commit_fault types (construct true begin_fault c)
