-- ===== src/Mio.antt =====
-- `assureFolderExists`, `createDirectories`, `assureIsRemoved`, `copy`, `rename`,
-- `setModifiedTime` and `checkExtension` of library/mio.cpp, for Unix.
use drone_db.Base.{
  List, [], ◌∷◌, map, any, same, Step, Option, none, some, eqb, ℕ, zero, suc, ◌≡◌, arith, Bool,
  false, not, Text, if◌then◌else◌, Result, ok, err, fs_error,
}
use drone_db.Tag.{lower}

-- The extension is that of `std::filesystem`, with its dot.
unfoldable pub check_extension : Text → List Text → Bool
check_extension [] matches = false
check_extension (dot ∷ extension) matches =
    any (λ m. same (map lower m) (map lower extension)) matches

-- What `std::filesystem`, stat and utime do on a tree of files: whether they fail, and the tree that
-- they leave.
pub record Tree (T : Type 0) : Type 0 where
  pub exists : T → Text → Bool
  pub is_directory : T → Text → Bool
  pub remove_all : Text → T → Bool × T
  pub create_directories : Text → T → Bool × T
  pub copy : Text → T → Bool × T
  pub rename : Text → Text → T → Bool × T
  pub mtime_of : T → Text → Option ℕ
  pub set_mtime : Text → ℕ → T → Bool × T

module _ {T : Type 0} (tree : Tree T) where
  abbrev pub throws_if_failed : Bool × T → Result (Unit {0}) × T
  throws_if_failed (failed, t) = (if failed then err fs_error else ok tt, t)

  unfoldable pub create_directories : Text → Step T
  create_directories p t = throws_if_failed (tree.create_directories p t)

  unfoldable pub assure_folder_exists : Text → Step T
  unfolding create_directories
  assure_folder_exists p t =
      if not (tree.exists t p)
      then create_directories p t
      else if tree.is_directory t p
      then (ok tt, t)
      else (err fs_error, t)

  unfoldable pub copy : Text → Step T
  copy p t = throws_if_failed (tree.copy p t)

  unfoldable pub rename : Text → Text → Step T
  rename from to t = throws_if_failed (tree.rename from to t)

  -- The time is written only where it differs.
  unfoldable pub set_modified_time : Text → ℕ → Step T
  set_modified_time p time t = elim (tree.mtime_of t p) [
    | none ↦ (err fs_error, t)
    | some m ↦ if eqb m time then (ok tt, t) else throws_if_failed (tree.set_mtime p time t)
  ]

  -- A removal, and up to `retries` more while it fails.
  unfoldable pub attempts : ℕ → Text → T → Bool × T
  attempts zero p t = tree.remove_all p t
  attempts (suc retries) p t =
      let again = attempts retries p (tree.remove_all p t).1 in
      if (tree.remove_all p t).0 then again else (false, (tree.remove_all p t).1)

  abbrev still_there : Text → Bool × T → Result (Unit {0}) × T
  still_there p (failed, t) =
      (if failed then err fs_error else if tree.exists t p then err fs_error else ok tt, t)

  unfoldable pub assure_is_removed : Text → Step T
  unfolding attempts
  assure_is_removed p t = if tree.exists t p then still_there p (attempts 3 p t) else (ok tt, t)

  -- A removal that does not throw leaves nothing at the path.
  pub assure_is_removed-gone :
      (p : Text) (t : T)
      → (assure_is_removed p t).0 ≡ ok tt
      → tree.exists (assure_is_removed p t).1 p ≡ false
  unfolding assure_is_removed
  assure_is_removed-gone p t h = ground arith
