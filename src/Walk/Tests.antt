-- ===== src/Walk/Tests.antt =====
-- The root directory `/r` has the folder `d`, with a file `a`, a folder `.ddb`, and a folder `e` that has
-- a file `b`.
use drone_db.Base.{
  ◌≡◌, ◌↔◌, refl, inr, some, true, false, List, [], ◌∷◌, Text, same, bytes, any, all, if◌then◌else◌,
  ok,
}
use drone_db.Walk.{
  Dir, Forest, empty, with_file, with_folder, Seen, a_file, a_folder, same_dir, member,
  is_parent_of, has_children, walk, climb, collect, get_index_path_list,
}
use drone_db.Index.Table.{Table, empty_entry}
use drone_db.Index.Check.{Files, FileStatus, not_indexed, not_modified, check_update}
use drone_db.Walk.Expand.{row_statuses, new_statuses, contains_ddb, status_index}
use drone_db.Walk.Reached.{IsReached}
use drone_db.Walk.Status.{is_new, IsUnknown, new_paths_are_reported}
use drone_db.Walk.Closed.{folders_of_listed_paths_are_listed}
use drone_db.Walk.Complete.{leads, given_paths_are_listed}

abbrev root : Dir
root = bytes "r" ∷ []

abbrev in_d : Forest
in_d = with_file (bytes "a") (
    with_folder (bytes ".ddb") (with_file (bytes "x") empty)
      (with_folder (bytes "e") (with_file (bytes "b") empty) empty))

abbrev seen : Dir → Seen
seen p = if same_dir p (bytes "d" ∷ root) then a_folder in_d else a_file

abbrev under_root : Text → Dir
under_root p = p ∷ root

abbrev in_e : Dir
in_e = bytes "e" ∷ bytes "d" ∷ root

abbrev file_b : Dir
file_b = bytes "b" ∷ in_e

abbrev in_order : List Dir
in_order = (bytes "a" ∷ bytes "d" ∷ root) ∷ file_b ∷ in_e ∷ (bytes "d" ∷ root) ∷ []

listed_d : get_index_path_list root seen under_root (bytes "d" ∷ []) true ≡ ok in_order
unfolding get_index_path_list has_children collect walk climb is_parent_of same same_dir any all
listed_d = refl

folders_of_listed_paths_are_listed_example : member in_e in_order ≡ true
unfolding is_parent_of same same_dir any
folders_of_listed_paths_are_listed_example =
    folders_of_listed_paths_are_listed root seen under_root (bytes "d" ∷ []) in_order (bytes "b")
      in_e listed_d refl refl

given_paths_are_listed_example : member file_b in_order ≡ true
unfolding same same_dir any all leads
given_paths_are_listed_example =
    given_paths_are_listed root seen under_root (bytes "d" ∷ []) in_order (bytes "d" ∷ root) file_b
      listed_d refl refl (inr (bytes "e" ∷ bytes "b" ∷ [], refl, refl, refl))

abbrev disk : Files
disk = record {
  exists = λ p. true;
  is_directory = λ p. false;
  mtime_of = λ p. some 5;
  size_of = λ p. some 9;
  sha256 = λ p. ok p;
}

abbrev place : Text → Dir
place p = p ∷ bytes "d" ∷ root

-- the innermost name
abbrev relative : Dir → Text
relative [] = []
relative (n ∷ p) = n

abbrev rows : Table
rows = record empty_entry { path = bytes "a"; mtime = 5 } ∷ []

abbrev statuses : List (FileStatus × Text)
statuses = (not_modified, bytes "a") ∷ (not_indexed, bytes "e") ∷ (not_indexed, bytes "b") ∷ []

status_of_d : status_index disk place relative rows (bytes "d" ∷ root) in_d ≡ ok statuses
unfolding status_index row_statuses new_statuses check_update contains_ddb walk same same_dir any
status_of_d = refl

new_paths_are_reported_example : (any (is_new (bytes "e")) statuses ≡ true) ↔ (
    (q : Dir) × IsReached in_d (bytes "d" ∷ root) q
    × IsUnknown disk place relative rows q
    × (bytes "e" ≡ relative q))
new_paths_are_reported_example =
    new_paths_are_reported disk place relative rows (bytes "d" ∷ root) in_d statuses (bytes "e")
      status_of_d
