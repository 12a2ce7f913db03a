-- ===== src/Build/Output.antt =====
-- When the output of a build is complete, and `ensureSufficientDiskSpace`.
use drone_db.Base.{
  ℕ, ◌*◌, ◌^◌, ◌%◌, Bool, false, ◌&&◌, Option, none, some, ◌∷◌, ◌++◌, Text, bytes, eqb, ltb,
  if◌then◌else◌, Result, ok, err, app_error,
}
use drone_db.Index.Table.{EntryType, vector, gaussian_splat, tiles_3d, Entry, Table, find_row}
use drone_db.Build.{is_buildable_internal, is_buildable_dependency}

-- a path below a folder
abbrev pub below : Text → Text → Text
below folder name = folder ++ b'/' ∷ name

-- What is seen of the build folder: whether a file is there and has bytes, and whether a folder has
-- such a file, at any depth.
pub record Sight (T : Type 0) : Type 0 where
  pub non_empty : T → Text → Bool
  pub has_content : T → Text → Bool

abbrev pub default_min_mb : Option ℕ → ℕ
default_min_mb none = 512
default_min_mb (some mb) = mb

-- `configured` is the environment's number of megabytes, `available` the free bytes where they can be
-- told. The product is of 64 bits.
unfoldable pub ensure_sufficient_disk_space : Option ℕ → Option ℕ → Result (Unit {0})
ensure_sufficient_disk_space configured none = ok tt
ensure_sufficient_disk_space configured (some available) =
    if eqb (default_min_mb configured) 0
    then ok tt
    else if ltb available (default_min_mb configured * 1048576 % 2 ^ 64)
    then err app_error
    else ok tt

module _ {T : Type 0} (sight : Sight T) where
  unfoldable pub is_build_output_complete : Text → EntryType → Text → T → Bool
  is_build_output_complete base vector subfolder t =
      sight.non_empty t (below (below base (bytes "vec")) (bytes "source.gpkg"))
      && sight.non_empty t (below (below base (bytes "mvt")) (bytes "metadata.json"))
  is_build_output_complete base gaussian_splat subfolder t =
      sight.non_empty t (below (below base (bytes "gsplat")) (bytes "model.rad"))
  is_build_output_complete base tiles_3d subfolder t =
      sight.non_empty t (below (below base (bytes "3dtiles")) (bytes "tileset.json"))
  is_build_output_complete base _ subfolder t = sight.has_content t (below base subfolder)

  module _ (parent_name extension : Text → Text) (with_extension : Text → Text → Text)
      (build_directory : Text) where
    abbrev pub main_complete : Text → Option Entry → T → Bool
    main_complete subfolder none t = false
    main_complete subfolder (some main) t =
        is_build_output_complete (below build_directory main.hash) main.type subfolder t

    abbrev pub dependency_complete : Table → Option (Text × Text) → T → Bool
    dependency_complete table none t = false
    dependency_complete table (some (main, subfolder)) t =
        main_complete subfolder (find_row main table) t

    abbrev pub entry_complete : Table → Entry → Option Text → T → Bool
    entry_complete table e (some subfolder) t =
        is_build_output_complete (below build_directory e.hash) e.type subfolder t
    entry_complete table e none t =
        dependency_complete table (is_buildable_dependency parent_name extension with_extension e) t

    unfoldable pub is_build_complete : Table → Text → T → Bool
    unfolding is_build_output_complete is_buildable_internal is_buildable_dependency
    is_build_complete table p t = elim (find_row p table) [
      | none ↦ false
      | some e ↦
          entry_complete table e (is_buildable_internal parent_name extension with_extension e) t
    ]
