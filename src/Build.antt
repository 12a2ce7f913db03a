-- ===== src/Build.antt =====
-- library/build.cpp: which entries are built, the output of a build and what is known of it.
-- `parent_name` is the name of the folder of a path, `extension` and `with_extension` are those of
-- `std::filesystem`. Text is joined by slashes as paths are.
pub mod Output
pub mod Internal
pub mod Failure
pub mod Success
pub mod Cleanup
pub mod Kept
pub mod Exact
pub mod Pending
pub mod Runs
pub mod Waiting
pub mod Tests
mod Samples
use drone_db.Base.{
  Bool, true, false, ◌&&◌, ◌||◌, not, Option, none, some, List, [], ◌∷◌, ◌++◌, Text, same, bytes,
  is_some, if◌then◌else◌, Error, Result, ok, err, invalid_args,
}
use drone_db.Index.Table.{
  EntryType, generic, geo_raster, point_cloud, model, vector, gaussian_splat, tiles_3d, Entry,
  Table, find_row,
}
use drone_db.Index.Add.Plan.{file_name}
use drone_db.Mio.{check_extension}

-- What an entry is built for: the entry whose hash names the output, the subfolder, and whether the
-- build is forced.
pub record Target : Type 0 where
  pub hash : Text
  pub subfolder : Text
  pub forced : Bool

abbrev pub main_target : Text → Option Entry → Option Target
main_target subfolder none = none
main_target subfolder (some main) =
    some (record { hash = main.hash; subfolder = subfolder; forced = true })

module _ (parent_name extension : Text → Text) (with_extension : Text → Text → Text) where
  abbrev pub subfolder_of : EntryType → Text → Option Text
  subfolder_of point_cloud p =
      if same (parent_name p) (bytes "ept-data") then none else some (bytes "copc")
  subfolder_of geo_raster p = some (bytes "cog")
  subfolder_of model p = some (bytes "nxs")
  subfolder_of vector p = some (bytes "vec")
  subfolder_of gaussian_splat p = some (bytes "gsplat")
  subfolder_of tiles_3d p = some (bytes "3dtiles")
  subfolder_of _ p = none

  -- The subfolder of the output, for an entry that is built.
  unfoldable pub is_buildable_internal : Entry → Option Text
  is_buildable_internal e = subfolder_of e.type e.path

  abbrev pub dependency_extensions : List Text
  dependency_extensions = bytes "cpg" ∷ bytes "dbf" ∷ bytes "prj" ∷ bytes "shx" ∷ []

  abbrev pub dependency_of : EntryType → Text → Option (Text × Text)
  dependency_of generic p =
      if check_extension (extension p) dependency_extensions
      then some (with_extension (file_name p) (bytes ".shp"), bytes "vec")
      else none
  dependency_of _ p = none

  -- The main file that the entry belongs to, and the subfolder.
  unfoldable pub is_buildable_dependency : Entry → Option (Text × Text)
  unfolding check_extension file_name
  is_buildable_dependency e = dependency_of e.type e.path

  unfoldable pub is_buildable : Table → Text → Result Bool
  unfolding is_buildable_internal is_buildable_dependency
  is_buildable t p = elim (find_row p t) [
    | none ↦ err invalid_args
    | some e ↦ ok (is_some (is_buildable_internal e) || is_some (is_buildable_dependency e))
  ]

  abbrev pub dependency_target : Table → Option (Text × Text) → Option Target
  dependency_target t none = none
  dependency_target t (some (main, subfolder)) = main_target subfolder (find_row main t)

  abbrev pub own_target : Table → Entry → Bool → Option Text → Option Target
  own_target t e force (some subfolder) =
      some (record { hash = e.hash; subfolder = subfolder; forced = force })
  own_target t e force none = dependency_target t (is_buildable_dependency e)

  unfoldable pub target_of : Table → Entry → Bool → Option Target
  unfolding is_buildable_internal is_buildable_dependency
  target_of t e force = own_target t e force (is_buildable_internal e)
