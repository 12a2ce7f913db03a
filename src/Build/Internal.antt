-- ===== src/Build/Internal.antt =====
-- `buildInternal`: a build is made in a scratch folder and moved into place.
-- The tools that make the outputs are arguments, as are the process lock and the name of the scratch
-- folder. The lock between the threads of one process is left out.
use drone_db.Base.{
  Bool, true, false, ◌&&◌, not, Option, none, some, List, ◌++◌, Text, bytes, if◌then◌else◌, Error,
  Result, ok, err, app_error, build_dep_missing, Step, then_step,
}
use drone_db.Index.Table.{
  EntryType, geo_raster, point_cloud, model, vector, gaussian_splat, tiles_3d, Entry, Table,
}
use drone_db.Mio.{Tree, assure_folder_exists, assure_is_removed, rename}
use drone_db.Build.{Target, target_of}
use drone_db.Build.Output.{Sight, below, is_build_output_complete}

-- How a tool ends.
pub data Made : Type 0 where
  made : Made
  missing_dependencies : List Text → Made
  app_failed : Error → Made
  failed_otherwise : Made

-- The tools, by the file and the folder they write to. `model_tiles` is the additional output of a
-- model, whose exceptions are dropped.
pub record Tools (T : Type 0) : Type 0 where
  pub build_copc : Text → Text → T → Made × T
  pub build_cog : Text → Text → T → Made × T
  pub build_nexus : Text → Text → T → Made × T
  pub model_tiles : Text → Text → T → T
  pub build_vector : Text → Text → Bool → T → Made × T
  pub build_gsplat : Text → Text → T → Made × T
  pub extract_all : Text → Text → T → Made × T

-- What else a build does to the tree: the pending file, the process lock and its destructor. The
-- check of the disk space is made on the tree.
pub record Site (T : Type 0) : Type 0 where
  pub write_pending : Text → List Text → T → T
  pub lock : Text → Step T
  pub unlock : Text → T → T
  pub space : Text → T → Result (Unit {0})

-- where a build is made and put
pub record Places : Type 0 where
  pub source : Text
  pub base : Text
  pub output : Text
  pub scratch : Text

-- what `built` is after the tool
abbrev pub is_moved : EntryType → Bool
is_moved point_cloud = true
is_moved geo_raster = true
is_moved model = true
is_moved gaussian_splat = true
is_moved tiles_3d = true
is_moved _ = false

abbrev pub as_made : {T : Type 0} → Result (Unit {0}) × T → Made × T
as_made (err e, t) = (app_failed e, t)
as_made (ok _, t) = (made, t)

abbrev pub then_made : {T : Type 0} → Made × T → (T → Made × T) → Made × T
then_made (made, t) next = next t
then_made (missing_dependencies deps, t) next = (missing_dependencies deps, t)
then_made (app_failed e, t) next = (app_failed e, t)
then_made (failed_otherwise, t) next = (failed_otherwise, t)

abbrev pub raise : {T : Type 0} → Error → Step T
raise e t = (err e, t)

module _ {T : Type 0} (tree : Tree T) (sight : Sight T) (tools : Tools T) (site : Site T) where
  unfoldable pub attempt : EntryType → Places → Bool → T → Made × T
  attempt point_cloud p force t =
      then_made (as_made (assure_is_removed tree (below p.base (bytes "ept")) t))
        (tools.build_copc p.source p.scratch)
  attempt geo_raster p force t = tools.build_cog p.source (below p.scratch (bytes "cog.tif")) t
  attempt model p force t =
      then_made (tools.build_nexus p.source (below p.scratch (bytes "model.nxz")) t)
        (λ t'. (made, tools.model_tiles p.source (below p.base (bytes "3dtiles")) t'))
  attempt vector p force t = tools.build_vector p.source p.base force t
  attempt gaussian_splat p force t = tools.build_gsplat p.source p.scratch t
  attempt tiles_3d p force t = then_made (tools.extract_all p.source p.scratch t) (λ t'. (
    if sight.non_empty t' (below p.scratch (bytes "tileset.json"))
        then made
        else app_failed app_error,
    t',
  ))
  attempt _ p force t = (made, t)

  unfoldable pub publish : Places → Step T
  publish p t =
      then_step (if tree.exists t p.output then assure_is_removed tree p.output t else (ok tt, t))
        (λ t1. then_step (assure_folder_exists tree p.base t1) (rename tree p.scratch p.output))

  abbrev pub finish : EntryType → Places → T → Made × T
  finish type p t = as_made (
      then_step (if is_moved type then publish p t else (ok tt, t))
        (assure_is_removed tree p.scratch))

  -- The handlers of the exceptions. The removal of the scratch folder may itself throw.
  unfoldable pub caught : Places → Made × T → Result (Unit {0}) × T
  caught p (made, t) = (ok tt, t)
  caught p (missing_dependencies deps, t) =
      then_step
        (assure_is_removed tree p.scratch (site.write_pending (p.base ++ bytes ".pending") deps t))
        (raise build_dep_missing)
  caught p (app_failed e, t) = then_step (assure_is_removed tree p.scratch t) (raise e)
  caught p (failed_otherwise, t) = then_step (assure_is_removed tree p.scratch t) (raise app_error)

  unfoldable pub make : EntryType → Places → Bool → Step T
  unfolding attempt publish caught
  make type p force t = caught p (then_made (attempt type p force t) (finish type p))

  unfoldable pub locked_build : EntryType → Places → Text → Bool → Step T
  unfolding make
  locked_build type p subfolder force t =
      if is_build_output_complete sight p.base type subfolder t && not force
      then (ok tt, t)
      else then_step (site.space p.base t, t)
          (λ t1. then_step (assure_folder_exists tree p.scratch t1) (λ t2.
            then_step (assure_is_removed tree (p.base ++ bytes ".pending") t2) (make type p force)))

  abbrev pub unlocked : Places → Result (Unit {0}) × T → Result (Unit {0}) × T
  unlocked p (r, t) = (r, site.unlock p.output t)

  abbrev pub guarded : EntryType → Places → Text → Bool → Step T
  guarded type p subfolder force t = then_step (assure_folder_exists tree p.base t) (λ t1.
      then_step (site.lock p.output t1) (λ t2. unlocked p (locked_build type p subfolder force t2)))

  module _ (parent_name extension : Text → Text) (with_extension : Text → Text → Text)
      (root build_directory random : Text) where
    abbrev pub places : Entry → Target → Places
    places e target =
        let base = below build_directory target.hash in
        record {
          source = below root e.path;
          base = base;
          output = below base target.subfolder;
          scratch = below base target.subfolder ++ bytes "-temp-" ++ random;
        }

    abbrev pub build_target : Entry → Option Target → Step T
    build_target e none t = (ok tt, t)
    build_target e (some target) t =
        guarded e.type (places e target) target.subfolder target.forced t

    unfoldable pub build_internal : Table → Entry → Bool → Step T
    unfolding locked_build target_of
    build_internal table e force t =
        build_target e (target_of parent_name extension with_extension table e force) t
