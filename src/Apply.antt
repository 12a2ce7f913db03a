-- ===== src/Apply.antt =====
-- `applyDelta` of library/registry.cpp: the changes of a remote index are made to the local one.
-- The operations of the local index and of its directory stand in one record, which `Apply.Here` fills
-- in. A path is the one below the root directory.
pub mod Steps
pub mod Survival
pub mod Here
pub mod Stale
mod Tests
use drone_db.Base.{
  Step, then_step, Bool, true, false, ◌&&◌, not, Option, none, some, List, [], ◌∷◌, ◌++◌, map, Text,
  same, any, is_some, if◌then◌else◌, Result, ok, err, invalid_args, ◌>>=◌,
}
use drone_db.Index.Table.{Entry}
use drone_db.Delta.{AddAction, RemoveAction, Delta, is_empty, is_directory}
use drone_db.Meta.Dump.{DumpedMeta}

pub data MergeStrategy : Type 0 where
  dont_merge keep_theirs keep_ours : MergeStrategy

pub data ConflictType : Type 0 where
  remote_delete_local_modified both_modified : ConflictType

pub record Conflict : Type 0 where
  pub path : Text
  pub type : ConflictType

-- The local index and its directory, both in `W`. `make_temp_folder` and `drop_temp_folder` are of
-- the folder below `tmp`, and `copy` takes a file from the folder of the remote files.
pub record Local (W : Type 0) : Type 0 where
  pub get_entry : W → Text → Option Entry
  pub exists : W → Text → Bool
  pub make_temp_folder : Step W
  pub drop_temp_folder : Step W
  pub remove_from_index : Text → Step W
  pub assure_is_removed : Text → Step W
  pub create_directories : Text → Step W
  pub copy : Text → Step W
  pub add_to_index : Text → Step W
  pub sync_local_mtimes : List Text → Step W
  pub restore : List DumpedMeta → Step W
  pub bulk_remove : List Text → Step W

pub data Decision : Type 0 where
  proceeds reports skips : Decision

abbrev pub refusal : MergeStrategy → Decision
refusal dont_merge = reports
refusal keep_ours = skips
refusal keep_theirs = proceeds

-- for an action with a hash, and the entry that the index has of its path
unfoldable pub decide : MergeStrategy → Text → Option Entry → Decision
decide m hash none = proceeds
decide m hash (some e) = if same hash e.hash then proceeds else refusal m

unfoldable pub modified_path_list : Delta → List Text
modified_path_list d =
    map (λ (a : AddAction). a.path) d.adds ++ map (λ (r : RemoveAction). r.path) d.removes

-- The elements of the dump that the delta adds.
unfoldable pub listed_metas : List Text → List DumpedMeta → Result (List DumpedMeta)
listed_metas ids [] = ok []
listed_metas ids (m ∷ ms) = elim m.id [
  | none ↦ err invalid_args
  | some i ↦ listed_metas ids ms >>= (λ rest. ok (if any (same i) ids then m ∷ rest else rest))
]

-- The conflicts so far.
abbrev pub State : Type 0 → Type 0
State W = List Conflict × W

module _ {W : Type 0} where
  abbrev pub with_conflicts : List Conflict → Result (Unit {0}) × W → Result (Unit {0}) × State W
  with_conflicts cs (r, w) = (r, (cs, w))

  abbrev pub decided : Conflict → Step W → State W → Decision → Result (Unit {0}) × State W
  decided c act (cs, w) proceeds = with_conflicts cs (act w)
  decided c act (cs, w) reports = (ok tt, (cs ++ c ∷ [], w))
  decided c act (cs, w) skips = (ok tt, (cs, w))

  unfoldable pub each : {A : Type 0} → (A → Step (State W)) → List A → Step (State W)
  each f [] s = (ok tt, s)
  each f (a ∷ rest) s = then_step (f a s) (each f rest)

  abbrev pub no_conflicts : Result (Unit {0}) × W → Result (List Conflict) × W
  no_conflicts (err e, w) = (err e, w)
  no_conflicts (ok _, w) = (ok [], w)

  module _ (here : Local W) (m : MergeStrategy) where
    abbrev pub delete_local : Bool → Text → Step W
    delete_local indexed p w =
        if here.exists w p
        then then_step (if indexed then here.remove_from_index p w else (ok tt, w))
            (here.assure_is_removed p)
        else (ok tt, w)

    unfoldable pub apply_remove : RemoveAction → Step (State W)
    unfolding decide
    apply_remove r (cs, w) =
        decided (record { path = r.path; type = remote_delete_local_modified })
          (delete_local (is_some (here.get_entry w r.path)) r.path) (cs, w)
          (decide m r.hash (here.get_entry w r.path))

    abbrev pub write_local : AddAction → Step W
    write_local a w =
        then_step
          (if is_directory a.hash then here.create_directories a.path w else here.copy a.path w)
          (here.add_to_index a.path)

    unfoldable pub apply_add : AddAction → Step (State W)
    unfolding decide
    apply_add a (cs, w) =
        decided (record { path = a.path; type = both_modified }) (write_local a) (cs, w)
          (decide m a.hash (here.get_entry w a.path))

    abbrev pub sync_times : List Text → Step (State W)
    sync_times paths (cs, w) =
        if is_empty cs && not (is_empty paths)
        then with_conflicts cs (here.sync_local_mtimes paths w)
        else (ok tt, (cs, w))

    abbrev pub end_files : List Text → Step (State W)
    end_files paths (cs, w) =
        then_step (with_conflicts cs (here.drop_temp_folder w)) (sync_times paths)

    unfoldable pub file_operations : Delta → W → Result (Unit {0}) × State W
    unfolding each apply_remove apply_add modified_path_list
    file_operations d w =
        if is_empty d.adds && is_empty d.removes
        then (ok tt, ([], w))
        else then_step (with_conflicts [] (here.make_temp_folder w)) (λ s.
          then_step (each apply_remove d.removes s)
            (λ s'. then_step (each apply_add d.adds s') (end_files (modified_path_list d))))

    abbrev pub restore_listed : Result (List DumpedMeta) → Step W
    restore_listed (err e) w = (err e, w)
    restore_listed (ok metas) w = here.restore metas w

    unfoldable pub meta_operations : Delta → List DumpedMeta → Step W
    unfolding listed_metas
    meta_operations d dump w =
        then_step
          (if is_empty d.meta_adds
            then (ok tt, w)
            else restore_listed (listed_metas d.meta_adds dump) w)
          (λ w'.
            if is_empty d.meta_removes then (ok tt, w') else here.bulk_remove d.meta_removes w')

    abbrev pub after_files :
        Delta → List DumpedMeta → Result (Unit {0}) × State W → Result (List Conflict) × W
    after_files d dump (err e, (cs, w)) = (err e, w)
    after_files d dump (ok _, (c ∷ cs, w)) = (ok (c ∷ cs), w)
    after_files d dump (ok _, ([], w)) = no_conflicts (meta_operations d dump w)

    unfoldable pub apply_delta : Delta → List DumpedMeta → W → Result (List Conflict) × W
    unfolding file_operations meta_operations
    apply_delta d dump w = after_files d dump (file_operations d w)
