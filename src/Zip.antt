-- ===== src/Zip.antt =====
-- library/mzip.cpp: `ensureSafeZipEntry` and `_extractAll`, for Unix. The archive is the list of what the
-- library answers for its entries.
pub mod Inside
pub mod Extract
mod Tests
use drone_db.Base.{
  ℕ, Bool, true, false, ◌&&◌, ◌||◌, not, Option, none, some, List, [], ◌∷◌, ◌++◌, map, Text, same,
  bytes, eqb, any, last?, if◌then◌else◌, Result, ok, err, app_error, Step, then_step,
}
use drone_db.Mio.{Tree, create_directories, assure_folder_exists}
use drone_db.Build.Output.{below}
use drone_db.Build.Pending.{on_first_line}

pub record ZipEntry : Type 0 where
  pub stat_fails : Bool
  pub name : Option Text
  pub cannot_open : Bool
  pub cannot_read : Bool

-- what lies between slashes
unfoldable pub segments : Text → List Text
segments [] = [] ∷ []
segments (c ∷ s) = let rest = segments s in if eqb c b'/' then [] ∷ rest else on_first_line c rest

abbrev pub slashed : ℕ → ℕ
slashed c = if eqb c 92 then b'/' else c

abbrev pub is_absolute : Text → Bool
is_absolute [] = false
is_absolute (c ∷ s) = eqb c b'/'

abbrev pub has_drive : Text → Bool
has_drive (c ∷ d ∷ s) = eqb d b':'
has_drive _ = false

abbrev pub climbs : List Text → Bool
climbs ss = any (λ s. same s (bytes "..")) ss

-- `escapes` is the test of the resolved path, where it can be resolved.
unfoldable pub ensure_safe_zip_entry : (Text → Bool) → Text → Result (Unit {0})
unfolding segments
ensure_safe_zip_entry escapes name =
    let slashes = map slashed name in
    if is_absolute slashes
    then err app_error
    else if has_drive slashes
    then err app_error
    else if climbs (segments slashes)
    then err app_error
    else if escapes slashes
    then err app_error
    else ok tt

abbrev pub is_folder_name : Option ℕ → Bool
is_folder_name none = false
is_folder_name (some c) = eqb c b'/'

-- `open_file` opens a file for writing and `write_file` writes what is read of an entry.
module _ {T : Type 0} (tree : Tree T) (open_file : Text → T → Bool × T)
    (write_file : Text → ZipEntry → T → T) (parent_path : Text → Text) (escapes : Text → Bool)
    (outdir : Text) where
  abbrev pub opened : Text → ZipEntry → Bool × T → Result (Unit {0}) × T
  opened path e (fails, t) =
      if fails
      then (err app_error, t)
      else if e.cannot_open
      then (err app_error, t)
      else (if e.cannot_read then err app_error else ok tt, write_file path e t)

  abbrev pub extract_named : ZipEntry → Text → Step T
  extract_named e name t =
      if is_folder_name (last? name)
      then assure_folder_exists tree (below outdir name) t
      else then_step (assure_folder_exists tree (parent_path (below outdir name)) t)
          (λ t'. opened (below outdir name) e (open_file (below outdir name) t'))

  abbrev pub extract_valid : ZipEntry → Option Text → Step T
  extract_valid e none t = (ok tt, t)
  extract_valid e (some name) t =
      then_step (ensure_safe_zip_entry escapes name, t) (extract_named e name)

  unfoldable pub extract_entry : ZipEntry → Step T
  unfolding ensure_safe_zip_entry
  extract_entry e t = if e.stat_fails then (err app_error, t) else extract_valid e e.name t

  abbrev pub extract_entries : List ZipEntry → Step T
  extract_entries [] t = (ok tt, t)
  extract_entries (e ∷ es) t = then_step (extract_entry e t) (extract_entries es)

  unfoldable pub extract_all : Bool → List ZipEntry → Step T
  unfolding extract_entry
  extract_all close_fails es t = then_step (create_directories tree outdir t) (λ t1.
      then_step (extract_entries es t1) (λ t2. (if close_fails then err app_error else ok tt, t2)))
