-- ===== src/Apply/Here.antt =====
-- The local index of `applyDelta`: its tables and build folders, and the tree of its files.
-- `root` joins the root directory to a path, and `relative_to` takes it off. `path_list` is
-- `getIndexPathList`, `pass_of` is what an addition finds in the tree, and `temp` the folder below
-- `tmp`.
use drone_db.Base.{
  Step, then_step, ℕ, ◌≡◌, refl, ◌∙◌, Bool, true, false, ◌&&◌, not, Option, none, some, List, [],
  ◌∷◌, Text, same, any, all, keep, if◌then◌else◌, Result, ok, err,
}
use drone_db.Index.Table.{EntryType, directory, drone_db_type, Entry, Table, find_row}
use drone_db.Index.Check.{Files}
use drone_db.Index.Add.Passes.{Pass, add_to_index}
use drone_db.Index.Add.Stays.{indexed_rows_stay}
use drone_db.Transaction.{Connection, Fault}
use drone_db.Meta.{MetaRow}
use drone_db.Meta.Dump.{DumpedMeta, restore, bulk_remove}
use drone_db.Move.{Stored}
use drone_db.Remove.{pattern_of, match_pattern, remove_from_index}
use drone_db.Remove.Others.{other_rows_stay}
use drone_db.Apply.{Local, MergeStrategy, apply_delta}
use drone_db.Mio.{
  Tree, set_modified_time, assure_folder_exists, assure_is_removed, create_directories, copy,
}
use drone_db.Apply.Steps.{Leaves, Laws}
use drone_db.Apply.Stale.{entries_are_not_replaced}
use drone_db.Delta.{RemoveAction, Delta}

-- The tables and the build folders, and the tree. No transaction is open between two operations.
abbrev pub Place : Type 0 → Type 0
Place T = (Stored × (Text → Bool)) × T

abbrev pub at_rest : {S : Type 0} → S → Connection S
at_rest s = record { committed = s; working = none }

abbrev pub dated : EntryType → Bool
dated directory = false
dated drone_db_type = false
dated _ = true

abbrev pub in_tree : {T : Type 0} → Step T → Step (Place T)
in_tree step (d, t) = ((step t).0, (d, (step t).1))

abbrev pub without_count : Result ℕ → Result (Unit {0})
without_count (ok n) = ok tt
without_count (err e) = err e

module _ {T : Type 0} (tree : Tree T) (like : Text → Text → Bool) (stuck : Text → Bool)
    (faults : Text → Bool → Fault × Fault) (meta_faults : Fault × Fault)
    (relative_to root : Text → Text) (parse_entry : Files → Text → Entry → Result Entry)
    (path_list : T → Text → List Text) (pass_of : T → Pass) (temp : Text) where
  -- `syncLocalMTimes`, of the paths that are listed, or of every path where none is.
  unfoldable pub set_times : Table → Step T
  unfolding set_modified_time
  set_times [] t = (ok tt, t)
  set_times (e ∷ es) t = then_step (set_modified_time tree (root e.path) e.mtime t) (set_times es)

  abbrev pub is_listed : List Text → Entry → Bool
  is_listed [] e = true
  is_listed (p ∷ ps) e = any (same e.path) (p ∷ ps)

  unfoldable pub sync_local_mtimes : List Text → Step (Place T)
  unfolding set_times
  sync_local_mtimes ps ((s, builds), t) =
      in_tree (set_times (keep (λ (e : Entry). dated e.type && is_listed ps e) s.entries))
        ((s, builds), t)

  abbrev pub removed_here : Text → Step (Place T)
  removed_here p ((s, builds), t) =
      let out = remove_from_index like stuck faults relative_to (root p ∷ []) (at_rest s, builds) in
      (out.0, ((out.1.0.committed, out.1.1), t))

  abbrev pub with_entries : Place T → Result (Connection Table) → Result (Unit {0}) × Place T
  with_entries w (err e) = (err e, w)
  with_entries ((s, builds), t) (ok c) = (ok tt, ((record s { entries = c.committed }, builds), t))

  -- The callback prints the entry and goes on.
  abbrev pub goes_on : Option (Entry → Bool → Bool)
  goes_on = some (λ e updated. true)

  abbrev pub added_here : Text → Step (Place T)
  added_here p ((s, builds), t) =
      with_entries ((s, builds), t)
        (add_to_index relative_to root parse_entry goes_on (path_list t (root p)) (pass_of t)
          (at_rest s.entries))

  abbrev pub with_metas :
      Place T → Result ℕ × Connection (List MetaRow) → Result (Unit {0}) × Place T
  with_metas ((s, builds), t) (r, c) =
      (without_count r, ((record s { metas = c.committed }, builds), t))

  abbrev pub temp_made : Step T
  temp_made t =
      then_step (if tree.exists t temp then assure_is_removed tree temp t else (ok tt, t))
        (assure_folder_exists tree temp)

  abbrev pub temp_dropped : Step T
  temp_dropped t = if tree.exists t temp then assure_is_removed tree temp t else (ok tt, t)

  unfoldable pub here : Local (Place T)
  unfolding remove_from_index add_to_index sync_local_mtimes restore bulk_remove assure_is_removed
      assure_folder_exists create_directories copy
  here = record {
    get_entry = λ w p. find_row p w.0.0.entries;
    exists = λ w p. tree.exists w.1 (root p);
    make_temp_folder = in_tree temp_made;
    drop_temp_folder = in_tree temp_dropped;
    remove_from_index = removed_here;
    assure_is_removed = λ p. in_tree (assure_is_removed tree (root p));
    create_directories = λ p. in_tree (create_directories tree (root p));
    copy = λ p. in_tree (copy tree (root p));
    add_to_index = added_here;
    sync_local_mtimes = sync_local_mtimes;
    restore =
        λ metas w. with_metas w (restore meta_faults.0 meta_faults.1 metas (at_rest w.0.0.metas));
    bulk_remove =
        λ ids w. with_metas w (bulk_remove meta_faults.0 meta_faults.1 ids (at_rest w.0.0.metas));
  }

  module _ (covers : Text → Text → Bool)
      (covers_matches : (p e q : Text)
        → like (match_pattern (relative_to (root p)) false) e ≡ true
        → covers p q ≡ false
        → (like (pattern_of e false) q ≡ false) × (like (pattern_of e true) q ≡ false))
      (parsed_path : (f : Files) (p : Text) (e e' : Entry)
        → parse_entry f p e ≡ ok e'
        → e'.path ≡ relative_to p)
      (alone : (t : T) (rows : Table) → (pass_of t).others rows ≡ rows) where
    removed_here-Leaves :
        (p q : Text) (row : Entry) → covers p q ≡ false → Leaves here q row (removed_here p)
    unfolding here
    removed_here-Leaves p q row c ((s, builds), t) h =
        (other_rows_stay like stuck faults q relative_to (root p ∷ []) (at_rest s, builds)
          ((λ e l. covers_matches p e.path q l c), tt) refl).1
        ∙ h

    with_entries-Leaves :
        (q : Text) (row : Entry) (w : Place T) (r : Result (Connection Table))
        → find_row q w.0.0.entries ≡ some row
        → ((c : Connection Table) → r ≡ ok c → find_row q c.committed ≡ some row)
        → find_row q (with_entries w r).1.0.0.entries ≡ some row
    with_entries-Leaves q row w (err e) h g = h
    with_entries-Leaves q row ((s, builds), t) (ok c) h g = g c refl

    added_here-Leaves : (p q : Text) (row : Entry) → Leaves here q row (added_here p)
    unfolding here
    added_here-Leaves p q row ((s, builds), t) h =
        with_entries-Leaves q row ((s, builds), t) _ h
          (λ c ran.
            indexed_rows_stay relative_to root parse_entry parsed_path goes_on
              (path_list t (root p)) (pass_of t) s.entries c q row (alone t s.entries) h ran)

    -- The local index leaves alone what it may, where no other process writes to it.
    pub here-Laws : Laws here covers
    unfolding here sync_local_mtimes
    here-Laws = record {
      make_temp_leaves = λ q row w h. h;
      drop_temp_leaves = λ q row w h. h;
      remove_leaves = removed_here-Leaves;
      assure_leaves = λ p q row w h. h;
      directories_leave = λ p q row w h. h;
      copy_leaves = λ p q row w h. h;
      add_leaves = λ p q row n. added_here-Leaves p q row;
      times_leave = λ ps q row w h. h;
      restore_leaves = λ ms q row w h. h;
      bulk_leaves = λ is q row w h. h;
    }

    -- Where a parsed entry has the path of its file and no other process writes to the index
    -- meanwhile, a delta leaves the row of a path that the index has as it is, whatever the merge
    -- strategy is and whatever hash the delta adds the path with, also where it throws, if the path
    -- is not one that LIKE takes along with a removal of the delta.
    pub indexed_files_are_not_replaced :
        (m : MergeStrategy) (d : Delta) (dump : List DumpedMeta) (w : Place T) (q : Text)
        (row : Entry)
        → all (λ (r : RemoveAction). not (covers r.path q)) d.removes ≡ true
        → find_row q w.0.0.entries ≡ some row
        → find_row q (apply_delta here m d dump w).1.0.0.entries ≡ some row
    unfolding here
    indexed_files_are_not_replaced m d dump w q row e h =
        entries_are_not_replaced here covers here-Laws (λ p x r. added_here-Leaves p x r) m q row d
          dump w e h
