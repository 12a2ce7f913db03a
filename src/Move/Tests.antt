-- ===== src/Move/Tests.antt =====
-- A file `a` that is moved over the file `b`; all extensions are the same.
use drone_db.Base.{
  ℕ, ◌≡◌, refl, Bool, true, false, none, some, List, [], ◌∷◌, Text, bytes, same, keep, Result, ok,
  err, other_error, if◌then◌else◌,
}
use drone_db.Index.Table.{EntryType, generic, Entry, Table, empty_entry, find_row, delete_row}
use drone_db.Transaction.{Connection}
use drone_db.Meta.{MetaRow, delete_where}
use drone_db.Move.{Stored, delete_entry, check_delete_meta, replace_path, move_file, move_entry}
use drone_db.Move.File.{file_row, moved_file}
use drone_db.Move.Outcome.{MoveOutcome, move_entry_exact}

abbrev depth : Text → ℕ
depth p = 0

abbrev extension : Text → Text
extension p = []

abbrev fingerprint : Text → Result EntryType
fingerprint p = err other_error

abbrev like : Text → Text → Bool
like pattern p = false

abbrev none_missing : Table → List Text
none_missing t = []

abbrev file_a : Entry
file_a = record empty_entry { path = bytes "a"; hash = bytes "x"; type = generic }

abbrev file_b : Entry
file_b = record empty_entry { path = bytes "b"; hash = bytes "y"; type = generic }

abbrev note_of : Text → MetaRow
note_of p = record { id = p; path = p; key = bytes "note"; meta_data = []; mtime = 1 }

abbrev both : Stored
both = record {
  entries = file_a ∷ file_b ∷ [];
  metas = note_of (bytes "a") ∷ note_of (bytes "b") ∷ [];
}

abbrev after : Stored
after = record {
  entries = record file_a { path = bytes "b" } ∷ [];
  metas = record (note_of (bytes "a")) { path = bytes "b" } ∷ [];
}

move_a :
    move_file depth extension fingerprint like none_missing 0 file_a (bytes "a") (bytes "b") both
    ≡ ok after
unfolding move_file replace_path delete_entry check_delete_meta delete_where keep delete_row
    find_row same
move_a = refl

moved_file_example :
    (type : EntryType) × (if true then type ≡ generic else fingerprint (bytes "b") ≡ ok type)
    × ((p : Text)
        → find_row p after.entries ≡ (
            if same (bytes "b") p
            then some (file_row depth (bytes "b") type file_a)
            else if same (bytes "a") p
            then none
            else find_row p both.entries))
unfolding find_row same
moved_file_example =
    moved_file depth extension fingerprint like none_missing 0 file_a (bytes "a") (bytes "b") both
      after refl refl move_a

abbrev at_rest : Connection Stored
at_rest = record { committed = both; working = none }

move_entry_exact_example :
    MoveOutcome depth extension fingerprint like none_missing 0 (bytes "a") (bytes "b") at_rest (
      move_entry depth extension fingerprint like none_missing 0 none none
        (bytes "a")
        (bytes "b")
        at_rest)
move_entry_exact_example =
    move_entry_exact depth extension fingerprint like none_missing 0 none none (bytes "a")
      (bytes "b") at_rest refl
