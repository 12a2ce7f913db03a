-- ===== src/Index/Add/Tests.antt =====
-- A directory with the files `a`, new to the index, and `b`, which the index has with another hash.
-- Relative and absolute paths are the same here.
use drone_db.Base.{
  ◌≡◌, refl, sym, ap, ok-injective, same, any, true, false, none, some, List, [], ◌∷◌, Text, bytes,
  Result, ok,
}
use drone_db.Transaction.{Connection, construct, destroy, commit, exec_begin, exec_commit}
use drone_db.Index.Table.{Entry, Table, empty_entry, find_row, insert_row, do_update}
use drone_db.Index.Check.{Files}
use drone_db.Index.Add.Plan.{
  ComputedAddItem, plan_add_candidates, is_skipped, compute_item, compute_add_entries,
}
use drone_db.Index.Add.Counts.{tally}
use drone_db.Index.Add.Commit.{
  Batch, verdict, has_changed, commit_loop, commit_add_entries, end_batch,
}
use drone_db.Index.Add.CommitLaws.{commit_writes_accepted, last_written, or_else}
use drone_db.Index.Add.Outcome.{CommitsOrNot, commit_all_or_nothing}
use drone_db.Index.Add.ComputeLaws.{id}
use drone_db.Index.Add.Passes.{AddResult, Pass, default_options, one_pass, add_to_index_ex}
use drone_db.Index.Add.Completeness.{nothing_yet, accounted, every_path_is_reported}

abbrev disk : Files
disk = record {
  exists = λ p. true;
  is_directory = λ p. false;
  mtime_of = λ p. some 5;
  size_of = λ p. some 9;
  sha256 = λ p. ok p;
}

abbrev parse_any : Files → Text → Entry → Result Entry
parse_any f p e = ok (record empty_entry { path = p; hash = p; mtime = 5; size = 9 })

abbrev entry_a : Entry
entry_a = record empty_entry { path = bytes "a"; hash = bytes "a"; mtime = 5; size = 9 }

abbrev entry_b : Entry
entry_b = record empty_entry { path = bytes "b"; hash = bytes "b"; mtime = 5; size = 9 }

abbrev old_b : Entry
old_b = record empty_entry { path = bytes "b"; hash = bytes "old"; mtime = 2; size = 4 }

abbrev index : Table
index = old_b ∷ []

-- `a` and `b` as they are computed when neither is in the index
abbrev new_item : Entry → ComputedAddItem
new_item e = record { entry = e; is_update = false; observed_mtime = 5; observed_size = 9 }

abbrev both : List ComputedAddItem
both = new_item entry_a ∷ new_item entry_b ∷ []

abbrev both_written : Batch
both_written = record {
  tentative = (entry_a, true) ∷ (entry_b, false) ∷ [];
  conflicts = [];
  unchanged = [];
  canceled = false;
}

loop_both : commit_loop id disk none both index ≡ ok (both_written, entry_b ∷ entry_a ∷ [])
unfolding commit_loop verdict has_changed find_row same insert_row do_update
loop_both = refl

commit_writes_accepted_example :
    find_row (bytes "b") (entry_b ∷ entry_a ∷ [])
    ≡ or_else (last_written (bytes "b") both_written.tentative) (find_row (bytes "b") index)
commit_writes_accepted_example =
    commit_writes_accepted id disk none both index (entry_b ∷ entry_a ∷ []) both_written (bytes "b")
      loop_both

commit_all_or_nothing_example :
    CommitsOrNot id disk none both index (
      commit_add_entries id disk none none none both (record { committed = index; working = none }))
commit_all_or_nothing_example = commit_all_or_nothing id disk none none none both index

-- A pass in which another process adds `b` between the two phases.
abbrev busy_pass : Pass
busy_pass = record {
  at_compute = disk;
  at_commit = disk;
  others = λ t. index;
  begin_fault = none;
  commit_fault = none;
}

abbrev reported_both : AddResult
reported_both = record {
  entries = (entry_a, true) ∷ (entry_b, false) ∷ [];
  unchanged = [];
  errors = [];
}

abbrev added_both : Connection Table
added_both = record { committed = entry_b ∷ entry_a ∷ []; working = none }

add_both :
    add_to_index_ex id id parse_any none
      (bytes "a" ∷ bytes "b" ∷ [])
      default_options
      (λ n. busy_pass)
      nothing_yet
      (record { committed = []; working = none })
    ≡ ok (reported_both, added_both)
unfolding add_to_index_ex one_pass compute_add_entries plan_add_candidates is_skipped any
    compute_item commit_add_entries end_batch construct exec_begin destroy commit exec_commit
    commit_loop verdict has_changed find_row same insert_row do_update
add_both = refl

parsed_any : (f : Files) (q : Text) (e e' : Entry) → parse_any f q e ≡ ok e' → e'.path ≡ q
parsed_any f q e e' h = sym (ap (λ x. x.path) (ok-injective h))

every_path_is_reported_example :
    tally id (bytes "b") (bytes "a" ∷ bytes "b" ∷ []) ≡ accounted (bytes "b") reported_both
unfolding is_skipped any
every_path_is_reported_example =
    every_path_is_reported id id (λ q. refl) (λ q. refl) parse_any parsed_any
      (bytes "a" ∷ bytes "b" ∷ []) default_options (λ n. busy_pass) [] reported_both added_both
      (refl, (refl, tt)) add_both (bytes "b")
