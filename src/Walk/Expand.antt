-- ===== src/Walk/Expand.antt =====
-- `getPathList`, `expandPathList` and `statusIndex` (library/status.cpp). Paths are absolute, so that
-- `absolute` leaves them.
use drone_db.Base.{
  ℕ, suc, ◌-◌, Bool, true, false, ◌&&◌, ◌||◌, not, List, [], ◌∷◌, ◌++◌, Text, same, leb, any,
  if◌then◌else◌, Result, ok, err, fs_error, ◌>>=◌,
}
use drone_db.Index.Table.{Entry, Table, empty_entry}
use drone_db.Index.Check.{Files, FileStatus, not_indexed, check_update}
use drone_db.Remove.{starts_with}
use drone_db.Walk.{
  Dir, Forest, empty, with_file, with_folder, Seen, absent, a_file, a_folder, ddb_folder, same_dir,
  render, is_ddb, walk,
}

-- `maxDepth`: positive, -1, or anything else.
pub data Depth : Type 0 where
  at_most : ℕ → Depth
  first_level : Depth
  any_depth : Depth

-- Whether a folder at a depth is entered.
abbrev pub is_entered : Depth → ℕ → Bool
is_entered (at_most n) depth = not (leb (n - 1) depth)
is_entered first_level depth = false
is_entered any_depth depth = true

unfoldable pub walk_to : Depth → ℕ → Forest → Dir → List (Dir × Bool)
walk_to limit depth empty p = []
walk_to limit depth (with_file n rest) p =
    let others = walk_to limit depth rest p in
    if same n ddb_folder then others else (n ∷ p, false) ∷ others
walk_to limit depth (with_folder n inside rest) p =
    let others = walk_to limit depth rest p in
    let below = walk_to limit (suc depth) inside (n ∷ p) in
    if same n ddb_folder
    then others
    else (n ∷ p, true) ∷ ((if is_entered limit depth then below else []) ++ others)

-- The folders or the files of a walk, or both.
abbrev pub chosen : Bool → Bool → List (Dir × Bool) → List Dir
chosen include_dirs include_files [] = []
chosen include_dirs include_files ((q, is_dir) ∷ rest) =
    let others = chosen include_dirs include_files rest in
    if (if is_dir then include_dirs else include_files) then q ∷ others else others

module _ (seen : Dir → Seen) (include_dirs : Bool) (limit : Depth) (include_files : Bool) where
  -- A file where files are not included is an error, as a missing path is.
  abbrev pub paths_at : Dir → Seen → Result (List Dir)
  paths_at p absent = err fs_error
  paths_at p a_file = if include_files then ok (p ∷ []) else err fs_error
  paths_at p (a_folder f) = ok (chosen include_dirs include_files (walk_to limit 0 f p))

  unfoldable pub get_path_list : List Dir → Result (List Dir)
  unfolding walk_to
  get_path_list [] = ok []
  get_path_list (p ∷ ps) =
      let others = get_path_list ps in
      let both = (do here ← paths_at p (seen p); rest ← get_path_list ps; ok (here ++ rest)) in
      if is_ddb p then others else both

unfoldable pub expand_path_list : (Dir → Seen) → List Dir → Bool → Depth → Result (List Dir)
unfolding get_path_list
expand_path_list seen paths recursive limit =
    if not recursive then ok paths else get_path_list seen true limit true paths

-- `find(".ddb") != npos`
unfoldable pub contains_ddb : Text → Bool
contains_ddb [] = false
contains_ddb (c ∷ s) = let rest = contains_ddb s in starts_with ddb_folder (c ∷ s) || rest

-- What the callback of `statusIndex` gets. `place` is the path of a row, `relative` that of a path.
module _ (files : Files) (place : Text → Dir) (relative : Dir → Text) where
  unfoldable pub row_statuses : Table → Result (List (FileStatus × Text))
  unfolding check_update
  row_statuses [] = ok []
  row_statuses (row ∷ rows) = do
    s ← check_update files empty_entry (render (place row.path)) row.mtime row.hash
    rest ← row_statuses rows
    ok ((s.0, row.path) ∷ rest)

  abbrev pub is_reported : Table → Dir → Bool
  is_reported rows q =
      not (any (λ (e : Entry). same_dir (place e.path) q) rows) && not (contains_ddb (render q))

  unfoldable pub new_statuses : Table → List (Dir × Bool) → List (FileStatus × Text)
  unfolding contains_ddb
  new_statuses rows [] = []
  new_statuses rows ((q, is_dir) ∷ qs) =
      let rest = new_statuses rows qs in
      if is_reported rows q then (not_indexed, relative q) ∷ rest else rest

  -- `root` is the root directory, with what it holds.
  unfoldable pub status_index : Table → Dir → Forest → Result (List (FileStatus × Text))
  unfolding row_statuses new_statuses walk
  status_index rows root f = do s ← row_statuses rows; ok (s ++ new_statuses rows (walk f root))
