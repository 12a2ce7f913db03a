-- ===== src/Build/Runs.antt =====
-- `build`, `buildAll`, `buildPending`, `isBuildPending`, `getPendingBuildInfo` and `isBuildActive`. The
-- index is not changed by a build. A query gives its rows in the order of the table.
use drone_db.Base.{
  ℕ, ◌+◌, Bool, true, false, ◌&&◌, ◌||◌, not, Option, none, some, List, [], ◌∷◌, ◌++◌, Text, same,
  bytes, ltb, any, all, keep, is_some, if◌then◌else◌, Result, ok, err, invalid_args, Step,
  then_step,
}
use drone_db.Index.Table.{
  EntryType, geo_raster, point_cloud, model, vector, gaussian_splat, tiles_3d, Entry, Table,
  find_row,
}
use drone_db.Mio.{Tree, assure_is_removed}
use drone_db.Build.{is_buildable_internal, is_buildable_dependency, own_target, Target}
use drone_db.Build.Output.{Sight, below}
use drone_db.Build.Internal.{Tools, Site, build_internal}
use drone_db.Build.Pending.{PendingFileData, parse_pending_file}

pub record PendingBuildInfo : Type 0 where
  pub hash : Text
  pub path : Text
  pub missing_dependencies : List Text
  pub last_attempt : ℕ

-- the types of the query of `buildAll`
abbrev pub has_builder : EntryType → Bool
has_builder point_cloud = true
has_builder geo_raster = true
has_builder model = true
has_builder vector = true
has_builder gaussian_splat = true
has_builder tiles_3d = true
has_builder _ = false

-- an exception that is caught and logged
abbrev pub logged : {T : Type 0} → Result (Unit {0}) × T → Result (Unit {0}) × T
logged (r, t) = (ok tt, t)

abbrev pub is_indexed : Table → Text → Bool
is_indexed table p = is_some (find_row p table)

abbrev pub with_hash : Table → Text → List Entry
with_hash table hash = keep (λ (e : Entry). same e.hash hash) table

-- The steps for the elements in turn, until one throws.
abbrev pub each : {T A : Type 0} → (A → Step T) → List A → Step T
each f [] t = (ok tt, t)
each f (x ∷ xs) t = then_step (f x t) (each f xs)

module _ {T : Type 0} (tree : Tree T) (sight : Sight T) (tools : Tools T) (site : Site T)
    (parent_name extension : Text → Text) (with_extension : Text → Text → Text)
    (root build_directory random : Text) (table : Table) where
  abbrev pub build_entry : Bool → Entry → Step T
  build_entry force e t =
      build_internal tree sight tools site parent_name extension with_extension root build_directory
        random table e force t

  unfoldable pub build : Text → Bool → Step T
  unfolding build_internal
  build p force t = elim (find_row p table) [
    | none ↦ (err invalid_args, t)
    | some e ↦ build_entry force e t
  ]

  unfoldable pub build_all : Bool → Step T
  unfolding build_internal
  build_all force t =
      each (λ e t'. logged (build_entry force e t'))
        (keep (λ (e : Entry). has_builder e.type) table) t

  -- `files` are the pending files of the build directory, `text_of` reads one, `hash_of` is its name
  -- without the extension; `now` is the clock.
  module _ (stoll : Text → Option ℕ) (files : T → List Text) (text_of : T → Text → Option Text)
      (hash_of : Text → Text) (now : ℕ) where
    abbrev pub pending_of : T → Text → PendingFileData
    pending_of t p = parse_pending_file stoll (text_of t p)

    -- The last attempt is less than five minutes ago, or a dependency is not indexed.
    abbrev pub is_early : PendingFileData → Bool
    is_early data' =
        ltb now (data'.last_attempt + 300)
        || not (all (is_indexed table) data'.missing_dependencies)

    abbrev pub retry_entry : Bool → Text → Entry → Step T
    retry_entry force p e t =
        then_step (assure_is_removed tree p t) (λ t1. logged (build_entry force e t1))

    abbrev pub retry_entries : Bool → Text → List Entry → Step T
    retry_entries force p [] t = assure_is_removed tree p t
    retry_entries force p (e ∷ es) t = each (retry_entry force p) (e ∷ es) t

    unfoldable pub retry_pending : Bool → Text → Step T
    unfolding parse_pending_file build_internal
    retry_pending force p t =
        if is_early (pending_of t p) && not force
        then (ok tt, t)
        else retry_entries force p (with_hash table (hash_of p)) t

    unfoldable pub build_pending : Bool → Step T
    unfolding retry_pending
    build_pending force t =
        if tree.exists t build_directory then each (retry_pending force) (files t) t else (ok tt, t)

    unfoldable pub is_build_pending : T → Bool
    is_build_pending t = tree.exists t build_directory && any (λ p. true) (files t)

    abbrev pub info_of : T → Text → List Entry → List PendingBuildInfo → List PendingBuildInfo
    info_of t p [] rest = rest
    info_of t p (e ∷ es) rest =
        record {
          hash = hash_of p;
          path = e.path;
          missing_dependencies = (pending_of t p).missing_dependencies;
          last_attempt = (pending_of t p).last_attempt;
        }
        ∷ rest

    abbrev pub info_list : T → List Text → List PendingBuildInfo
    info_list t [] = []
    info_list t (p ∷ ps) = info_of t p (with_hash table (hash_of p)) (info_list t ps)

    unfoldable pub get_pending_build_info : T → List PendingBuildInfo
    unfolding parse_pending_file
    get_pending_build_info t = if tree.exists t build_directory then info_list t (files t) else []

  -- `is_stale` is `isLockFileStale`. The removal of a stale lock file may fail silently.
  module _ (is_stale : T → Text → Bool) (remove : Text → T → T) where
    abbrev pub lock_active : Text → T → Bool × T
    lock_active lock_file t =
        if not (tree.exists t lock_file)
        then (false, t)
        else if is_stale t lock_file
        then (false, remove lock_file t)
        else (true, t)

    abbrev pub target_active : Option Target → T → Bool × T
    target_active none t = (false, t)
    target_active (some target) t =
        lock_active
          (below (below build_directory target.hash) target.subfolder ++ bytes ".building") t

    abbrev pub entry_active : Option Entry → T → Bool × T
    entry_active none t = (false, t)
    entry_active (some e) t =
        target_active
          (own_target parent_name extension with_extension table e false
            (is_buildable_internal parent_name extension with_extension e))
          t

    unfoldable pub is_build_active : Text → T → Bool × T
    unfolding is_buildable_internal is_buildable_dependency
    is_build_active p t = entry_active (find_row p table) t
