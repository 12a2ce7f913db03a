-- ===== src/Index/Add/Plan.antt =====
-- The first two phases: `planAddCandidates` and `computeAddEntries`.
use drone_db.Base.{
  ℕ, Bool, true, false, Option, none, some, List, [], ◌∷◌, ◌++◌, Text, eqb, any, bytes,
  if◌then◌else◌, Error, Result, ok, err, fs_error, gdal_error, pdal_error, json_error, index_error,
  ◌>>=◌,
}
use drone_db.Index.Table.{Entry, Table, empty_entry, find_row}
use drone_db.Index.Check.{Files, FileStatus, not_modified, check_update}

pub record PlannedAddItem : Type 0 where
  pub abs_path : Text
  pub rel_path : Text
  pub exists_in_db : Bool
  pub db_mtime : ℕ
  pub db_hash : Text

pub record ComputedAddItem : Type 0 where
  pub entry : Entry
  pub is_update : Bool
  pub observed_mtime : ℕ
  pub observed_size : ℕ

pub record AddItemError : Type 0 where
  pub path : Text
  pub code : Text

-- `p.filename()`: what follows the last slash
unfoldable pub file_name_from : Text → Text → Text
file_name_from name [] = name
file_name_from name (c ∷ p) = file_name_from (if eqb c b'/' then [] else name ++ c ∷ []) p

unfoldable pub file_name : Text → Text
unfolding file_name_from
file_name p = file_name_from [] p

-- A file whose name has a backslash is left out.
unfoldable pub is_skipped : Text → Bool
unfolding file_name any
is_skipped p = any (eqb b'\\') (file_name p)

abbrev pub planned_item : Text → Text → Option Entry → PlannedAddItem
planned_item p rel none = record {
  abs_path = p;
  rel_path = rel;
  exists_in_db = false;
  db_mtime = 0;
  db_hash = [];
}
planned_item p rel (some row) = record {
  abs_path = p;
  rel_path = rel;
  exists_in_db = true;
  db_mtime = row.mtime;
  db_hash = row.hash;
}

unfoldable pub plan_add_candidates : (Text → Text) → Table → List Text → List PlannedAddItem
plan_add_candidates relative_to t [] = []
plan_add_candidates relative_to t (p ∷ ps) =
    let rest = plan_add_candidates relative_to t ps in
    if is_skipped p
    then rest
    else planned_item p (relative_to p) (find_row (relative_to p) t) ∷ rest

-- The exceptions that belong to one item, with the code that is reported.
abbrev pub item_code : Error → Option Text
item_code fs_error = some (bytes "FS")
item_code gdal_error = some (bytes "GDAL")
item_code pdal_error = some (bytes "PDAL")
item_code json_error = some (bytes "JSON")
item_code index_error = some (bytes "INDEX")
item_code _ = none

-- What becomes of one item.
pub data Computed : Type 0 where
  to_write : ComputedAddItem → Computed
  unchanged_item : Text → Computed
  failed_item : AddItemError → Computed

abbrev pub is_not_modified : FileStatus → Bool
is_not_modified not_modified = true
is_not_modified _ = false

abbrev pub or_item_error : Bool → Text → Error → Result Computed
or_item_error true rel e = err e
or_item_error false rel e = elim (item_code e) [
  | none ↦ err e
  | some code ↦ ok (failed_item (record { path = rel; code = code }))
]

abbrev pub captured : Bool → Text → Bool → Result Entry → Result Computed
captured stop_on_error rel is_update (ok e) = ok (
    to_write (record {
      entry = e;
      is_update = is_update;
      observed_mtime = e.mtime;
      observed_size = e.size;
    }))
captured stop_on_error rel is_update (err e) = or_item_error stop_on_error rel e

pub record ComputePhase : Type 0 where
  pub computed : List ComputedAddItem
  pub errors : List AddItemError
  pub unchanged : List Text

abbrev pub put_first : Computed → ComputePhase → ComputePhase
put_first (to_write c) r = record r { computed = c ∷ r.computed }
put_first (unchanged_item p) r = record r { unchanged = p ∷ r.unchanged }
put_first (failed_item e) r = record r { errors = e ∷ r.errors }

module _ (parse_entry : Files → Text → Entry → Result Entry) (files : Files)
    (stop_on_error : Bool) where
  -- An entry that the index has goes through `checkUpdate`, outside the handlers for exceptions.
  unfoldable pub compute_known : PlannedAddItem → FileStatus × Entry → Result Computed
  compute_known item (status, e) =
      if is_not_modified status
      then ok (unchanged_item item.rel_path)
      else captured stop_on_error item.rel_path true (parse_entry files item.abs_path e)

  unfoldable pub compute_item : PlannedAddItem → Result Computed
  unfolding compute_known
  compute_item item =
      if item.exists_in_db
      then (do
        checked ← check_update files empty_entry item.abs_path item.db_mtime item.db_hash
        compute_known item checked)
      else captured stop_on_error item.rel_path false (parse_entry files item.abs_path empty_entry)

  unfoldable pub compute_add_entries : List PlannedAddItem → Result ComputePhase
  compute_add_entries [] = ok (record { computed = []; errors = []; unchanged = [] })
  compute_add_entries (item ∷ items) =
      compute_item item >>= λ c. compute_add_entries items >>= λ r. ok (put_first c r)
