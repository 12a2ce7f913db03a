-- ===== src/Build/Cleanup.antt =====
-- `cleanupBuild`, `removeOrphanTempFolders` and `isLockFileStale` of library/build.cpp, for Unix.
-- `extension` and `stem` are those of `std::filesystem`. The build directory is the list of what it
-- holds; where it cannot be read, the list ends.
use drone_db.Base.{
  ℕ, Bool, true, false, ◌&&◌, ◌||◌, not, Option, none, some, List, [], ◌∷◌, ◌++◌, map, Text, same,
  bytes, eqb, leb, ltb, any, all, keep, length, lt, if◌then◌else◌, Result, ok, err,
}
use drone_db.Base.Sort.{sort}
use drone_db.Index.Table.{Entry, Table}
use drone_db.Transaction.{Fault}
use drone_db.Meta.{is_blank}
use drone_db.Move.{is_folder}
use drone_db.Remove.{Disk, remove_from_index, starts_with}
use drone_db.Build.Output.{below}

-- A folder of the build directory: whether its scan fails, the files and the folders in it.
pub record Inside : Type 0 where
  pub scan_fails : Bool
  pub files : List Text
  pub folders : List Text

pub data Node : Type 0 where
  directory_node : Inside → Node
  regular_file : Node
  other_node : Node

pub record Item : Type 0 where
  pub name : Text
  pub node : Node

pub record CleanupResult : Type 0 where
  pub removed_entries : List Text
  pub removed_builds : List Text

abbrev pub is_hex : ℕ → Bool
is_hex c = (leb b'0' c && leb c b'9') || (leb b'a' c && leb c b'f') || (leb b'A' c && leb c b'F')

abbrev pub is_hash_like : Text → Bool
is_hash_like s = eqb (length s) 64 && all is_hex s

-- What is before the first "-temp-", where neither that nor what follows is empty.
unfoldable pub temp_prefix : Text → Text → Option Text
temp_prefix before [] = none
temp_prefix before (c ∷ s) =
    let rest = temp_prefix (before ++ c ∷ []) s in
    if starts_with (bytes "-temp-") (c ∷ s)
    then if is_blank before || not (ltb 6 (length (c ∷ s))) then none else some before
    else rest

-- What is before a suffix, where that is not empty.
unfoldable pub without_suffix : Text → Text → Option Text
without_suffix suffix [] = none
without_suffix suffix (c ∷ s) =
    let rest = without_suffix suffix s in
    if same s suffix then some (c ∷ []) else elim rest [ none ↦ none | some p ↦ some (c ∷ p) ]

abbrev pub acquired : Result (Unit {0}) → Bool
acquired (ok _) = true
acquired (err e) = false

-- The entries, folders excepted, whose file is known to be gone.
abbrev pub is_missing : (Text → Option Bool) → Entry → Bool
is_missing present e =
    not (is_folder e.type) && (elim (present e.path) [ none ↦ false | some there ↦ not there ])

abbrev pub missing_paths : (Text → Option Bool) → Table → List Text
missing_paths present t =
    map (λ (e : Entry). e.path)
      (sort (λ (l r : Entry). lt l.path r.path) (keep (is_missing present) t))

abbrev pub valid_hashes : Table → Text → Bool
valid_hashes t hash = any (λ (e : Entry). same e.hash hash && not (is_blank e.hash)) t

abbrev pub reported : Text → Result (Unit {0}) → List Text → List Text
reported p (ok _) rest = p ∷ rest
reported p (err e) rest = rest

module _ (exists : Text → Bool) (probe : Text → Result (Unit {0})) where
  -- `probe` takes the lock of an output folder without waiting, and gives it back.
  unfoldable pub is_lock_file_stale : Text → Bool
  unfolding without_suffix
  is_lock_file_stale lock_file =
      exists lock_file && (elim (without_suffix (bytes ".building") lock_file) [
        | none ↦ false
        | some output_folder ↦ acquired (probe output_folder)
      ])

  module _ (extension stem : Text → Text) (is_stuck : Text → Bool) (build_dir : Text) where
    abbrev pub is_active_temp : Text → Text → Bool
    is_active_temp hash_dir subfolder =
        let lock_path = below hash_dir (subfolder ++ bytes ".building") in
        exists lock_path && not (is_lock_file_stale lock_path)

    -- A scratch folder that no build holds, and that can be removed.
    abbrev pub is_orphan_temp : Text → Text → Bool
    is_orphan_temp hash_dir name = elim (temp_prefix [] name) [
      | none ↦ false
      | some subfolder ↦
          not (is_active_temp hash_dir subfolder) && not (is_stuck (below hash_dir name))
    ]

    abbrev pub is_held : Text → Inside → Bool
    is_held hash_dir inside =
        inside.scan_fails
        || any
            (λ f.
              same (extension f) (bytes ".building") && not (is_lock_file_stale (below hash_dir f)))
            inside.files

    -- What is left of an item, and the paths that are removed.
    abbrev pub clean_directory : (Text → Bool) → Text → Inside → Option Item × List Text
    clean_directory is_valid name inside =
        let item : Item = record { name = name; node = directory_node inside } in
        let path = below build_dir name in
        if not (is_hash_like name)
        then (some item, [])
        else if is_valid name
        then (
          some (record item {
            node = directory_node (record inside {
              folders = keep (λ f. not (is_orphan_temp path f)) inside.folders;
            });
          }),
          map (below path) (keep (is_orphan_temp path) inside.folders),
        )
        else if is_held path inside || is_stuck path
        then (some item, [])
        else (none, path ∷ [])

    abbrev pub clean_file : (Text → Bool) → Text → Option Item × List Text
    clean_file is_valid name =
        let item : Item = record { name = name; node = regular_file } in
        let path = below build_dir name in
        if not (same (extension name) (bytes ".pending"))
          || not (is_hash_like (stem name))
          || is_valid (stem name)
          || is_stuck path
        then (some item, [])
        else (none, path ∷ [])

    abbrev pub clean_node : (Text → Bool) → Text → Node → Option Item × List Text
    clean_node is_valid name (directory_node inside) = clean_directory is_valid name inside
    clean_node is_valid name regular_file = clean_file is_valid name
    clean_node is_valid name other_node = (some (record { name = name; node = other_node }), [])

    abbrev pub put_item : Option Item × List Text → List Item × List Text → List Item × List Text
    put_item (none, gone) (items, removed) = (items, gone ++ removed)
    put_item (some item, gone) (items, removed) = (item ∷ items, gone ++ removed)

    unfoldable pub clean_items : (Text → Bool) → List Item → List Item × List Text
    unfolding is_lock_file_stale temp_prefix
    clean_items is_valid [] = ([], [])
    clean_items is_valid (item ∷ items) =
        put_item (clean_node is_valid item.name item.node) (clean_items is_valid items)

    module _ (like : Text → Text → Bool) (stuck : Text → Bool)
        (faults : Text → Bool → Fault × Fault) (relative_to absolute : Text → Text) where
      -- One path at a time; an exception is logged.
      unfoldable pub remove_missing : List Text → Disk → List Text × Disk
      unfolding remove_from_index
      remove_missing [] d = ([], d)
      remove_missing (p ∷ ps) d =
          let out = remove_from_index like stuck faults relative_to (absolute p ∷ []) d in
          let rest = remove_missing ps out.1 in (reported p out.0 rest.0, rest.1)

      -- `listing` is the build directory after the first phase, none where it does not exist.
      abbrev pub second_phase :
          Option (List Item) → List Text × Disk → CleanupResult × (Disk × Option (List Item))
      second_phase none (gone, d) =
          (record { removed_entries = gone; removed_builds = [] }, (d, none))
      second_phase (some items) (gone, (c, builds)) =
          let cleaned = clean_items (valid_hashes c.committed.entries) items in
          (
            record { removed_entries = gone; removed_builds = cleaned.1 },
            ((c, builds), some cleaned.0),
          )

      unfoldable pub cleanup_build :
          (Text → Option Bool)
          → (Disk → Option (List Item))
          → Disk
          → CleanupResult × (Disk × Option (List Item))
      unfolding clean_items remove_missing
      cleanup_build present listing (c, builds) =
          let first = remove_missing (missing_paths present c.committed.entries) (c, builds) in
          second_phase (listing first.1) first
