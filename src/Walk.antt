-- ===== src/Walk.antt =====
-- library/dbops.cpp: `getIndexPathList`, `getPathList` and `expandPathList`, with `isParentOf` and `hasChildren`
-- of library/mio.cpp. A path is absolute and canonical: its names, the innermost first.
pub mod Closed
pub mod Complete
pub mod Expand
pub mod Reached
pub mod Status
mod Tests
use drone_db.Base.{
  ℕ, zero, suc, ◌+◌, Bool, true, false, ◌&&◌, ◌||◌, not, Option, none, some, List, [], ◌∷◌, ◌++◌,
  map, Text, same, bytes, any, all, leb, last?, eqb, if◌then◌else◌, Error, Result, ok, err,
  fs_error, ◌>>=◌,
}
use drone_db.Remove.{starts_with}
use drone_db.Meta.{is_blank}

abbrev pub Dir : Type 0
Dir = List Text

-- What a folder holds, in the order of its listing.
pub data Forest : Type 0 where
  empty : Forest
  with_file : Text → Forest → Forest
  with_folder : Text → Forest → Forest → Forest

pub data Seen : Type 0 where
  absent a_file : Seen
  a_folder : Forest → Seen

abbrev pub ddb_folder : Text
ddb_folder = bytes ".ddb"

unfoldable pub same_dir : Dir → Dir → Bool
same_dir [] [] = true
same_dir [] (y ∷ ys) = false
same_dir (x ∷ xs) [] = false
same_dir (x ∷ xs) (y ∷ ys) = same x y && same_dir xs ys

abbrev pub member : Dir → List Dir → Bool
member q ds = any (λ d. same_dir d q) ds

-- `string()`; the root of the file system is a slash.
abbrev pub render : Dir → Text
render [] = bytes "/"
render (n ∷ []) = bytes "/" ++ n
render (n ∷ m ∷ p) = render (m ∷ p) ++ bytes "/" ++ n

unfoldable pub is_parent_of : Dir → Dir → Bool
is_parent_of root child =
    starts_with (render root) (render child) && not (same (render root) (render child))

-- Whether what follows a prefix is empty or begins with a slash.
abbrev pub slash_after : Text → Text → Bool
slash_after [] [] = true
slash_after [] (c ∷ s) = eqb c b'/'
slash_after (b ∷ prefix) [] = true
slash_after (b ∷ prefix) (c ∷ s) = slash_after prefix s

abbrev pub is_inside : Dir → Dir → Bool
is_inside root child =
    same (render child) (render root)
    || (starts_with (render root) (render child) && slash_after (render root) (render child))

unfoldable pub has_children : Dir → List Dir → Bool
has_children root children = all (is_inside root) children

abbrev pub is_ddb : Dir → Bool
is_ddb [] = false
is_ddb (n ∷ p) = same n ddb_folder

-- The walk of `recursive_directory_iterator`, with whether a path is a folder.
unfoldable pub walk : Forest → Dir → List (Dir × Bool)
walk empty p = []
walk (with_file n rest) p =
    let others = walk rest p in if same n ddb_folder then others else (n ∷ p, false) ∷ others
walk (with_folder n inside rest) p =
    let others = walk rest p in
    let below = walk inside (n ∷ p) in
    if same n ddb_folder then others else (n ∷ p, true) ∷ (below ++ others)

-- A map by path: a path is there once. The order of its iteration is not specified.
abbrev pub put_folder : Dir → List Dir → List Dir
put_folder d folders = if member d folders then folders else d ∷ folders

abbrev pub put_folders : List Dir → List Dir → List Dir
put_folders [] folders = folders
put_folders (d ∷ ds) folders = put_folder d (put_folders ds folders)

module _ (root : Dir) where
  -- The parents within the root, the innermost first.
  unfoldable pub climb : Dir → List Dir
  climb [] = []
  climb (n ∷ p) = let rest = climb p in if is_parent_of root p then p ∷ rest else []

  abbrev pub enter : Bool → Bool → Dir → List Dir × List Dir → List Dir × List Dir
  enter include_dirs to_folders q (paths, folders) =
      let parents = if include_dirs then climb q else [] in
      if to_folders
      then (paths, put_folders parents (put_folder q folders))
      else (paths ++ q ∷ [], put_folders parents folders)

  abbrev pub enter_walked : Bool → List (Dir × Bool) → List Dir × List Dir → List Dir × List Dir
  enter_walked include_dirs [] acc = acc
  enter_walked include_dirs ((q, is_dir) ∷ rest) acc =
      enter_walked include_dirs rest (enter include_dirs (is_dir && include_dirs) q acc)

  abbrev pub enter_seen : Bool → Dir → Seen → List Dir × List Dir → Result (List Dir × List Dir)
  enter_seen include_dirs p absent acc = err fs_error
  enter_seen include_dirs p a_file acc = ok (enter include_dirs false p acc)
  enter_seen include_dirs p (a_folder f) acc =
      ok (enter include_dirs true p (enter_walked include_dirs (walk f p) acc))

  module _ (seen : Dir → Seen) where
    unfoldable pub collect : Bool → List Dir → List Dir × List Dir → Result (List Dir × List Dir)
    unfolding walk climb
    collect include_dirs [] acc = ok acc
    collect include_dirs (p ∷ ps) acc =
        let skipped = collect include_dirs ps acc in
        let entered = enter_seen include_dirs p (seen p) acc >>= collect include_dirs ps in
        if is_ddb p then skipped else entered

    abbrev pub listed : Result (List Dir × List Dir) → Result (List Dir)
    listed (ok (paths, folders)) = ok (paths ++ folders)
    listed (err e) = err e

    -- `dir_of` is `weakly_canonical(absolute(p))`.
    unfoldable pub get_index_path_list : (Text → Dir) → List Text → Bool → Result (List Dir)
    unfolding collect has_children
    get_index_path_list dir_of paths include_dirs =
        if any is_blank paths || not (has_children root (map dir_of paths))
        then err fs_error
        else listed (collect include_dirs (map dir_of paths) ([], []))
