-- ===== src/Locals.antt =====
-- `computeDeltaLocals` of library/registry.cpp, with `hardlinkSafe` of library/mio.cpp, and the choice of
-- the files that a pull downloads. Text is joined by slashes as paths are.
pub mod Kept
pub mod Placed
pub mod Run
pub mod Provided
mod Tests
use drone_db.Base.{
  ℕ, Bool, true, false, ◌&&◌, ◌||◌, not, Option, none, some, List, [], ◌∷◌, map, Text, same, eqb,
  any, keep, if◌then◌else◌, Error, Result, ok, err, fs_error, Step, then_step,
}
use drone_db.Index.Table.{Entry, Table}
use drone_db.Delta.{AddAction}
use drone_db.Meta.{is_blank}
use drone_db.Mio.{Tree, create_directories, throws_if_failed}
use drone_db.Build.Output.{below}

-- The first row of a hash.
abbrev pub row_of_hash : Text → Table → Option Entry
row_of_hash hash [] = none
row_of_hash hash (e ∷ t) = if same e.hash hash then some e else row_of_hash hash t

abbrev pub is_added : List AddAction → Text → Bool
is_added adds p = any (λ (a : AddAction). same a.path p && not (is_blank a.hash)) adds

module _ {T : Type 0} (tree : Tree T) (hardlink copy_file : Text → Text → T → Bool × T)
    (remove : Text → T → Bool × T) (sha256 : T → Text → Result Text) (parent_path : Text → Text)
    (root destination : Text) (table : Table) where
  abbrev pub or_copied : Text → Text → Result (Unit {0}) × T → Result (Unit {0}) × T
  or_copied target link (ok _, t) = (ok tt, t)
  or_copied target link (err e, t) = throws_if_failed tree (copy_file target link t)

  unfoldable pub hardlink_safe : Text → Text → Step T
  hardlink_safe target link t =
      then_step (if tree.exists t link then throws_if_failed tree (remove link t) else (ok tt, t))
        (λ t'. or_copied target link (throws_if_failed tree (hardlink target link t')))

  abbrev pub by_hash : Text → Result Text → Result Bool
  by_hash hash (ok h) = ok (same h hash)
  by_hash hash (err e) = err e

  -- Whether the file of a row is as it was, by its time or else its hash.
  abbrev pub row_valid : T → Text → Option Entry → Result Bool
  row_valid t hash none = ok false
  row_valid t hash (some e) = elim (tree.mtime_of t (below root e.path)) [
    | none ↦ err fs_error
    | some m ↦ if eqb m e.mtime then ok true else by_hash hash (sha256 t (below root e.path))
  ]

  unfoldable pub is_valid : T → Text → Result Bool
  is_valid t hash = row_valid t hash (row_of_hash hash table)

  abbrev pub placed : List AddAction → AddAction → Option Entry → Step T
  placed adds a none t = (ok tt, t)
  placed adds a (some e) t =
      if is_blank destination
      then (ok tt, t)
      else then_step (create_directories tree (parent_path (below destination a.path)) t) (λ t'.
        if is_added adds e.path
        then throws_if_failed tree (copy_file (below root e.path) (below destination a.path) t')
        else hardlink_safe (below root e.path) (below destination a.path) t')

  unfoldable pub place : List AddAction → AddAction → Step T
  unfolding hardlink_safe create_directories
  place adds a t = placed adds a (row_of_hash a.hash table) t

  abbrev pub with_hash : Text → Result (List Text) × T → Result (List Text) × T
  with_hash hash (ok hashes, t) = (ok (hash ∷ hashes), t)
  with_hash hash (err e, t) = (err e, t)

  abbrev pub after_place :
      Text → Result (Unit {0}) × T → (T → Result (List Text) × T) → Result (List Text) × T
  after_place hash (ok _, t) rest = with_hash hash (rest t)
  after_place hash (err e, t) rest = (err e, t)

  abbrev pub after_check :
      List AddAction
      → AddAction
      → Result Bool
      → T
      → (T → Result (List Text) × T)
      → Result (List Text) × T
  after_check adds a (err e) t rest = (err e, t)
  after_check adds a (ok false) t rest = rest t
  after_check adds a (ok true) t rest = after_place a.hash (place adds a t) rest

  -- The hashes that are there locally.
  abbrev pub locals_of : List AddAction → List AddAction → T → Result (List Text) × T
  locals_of adds [] t = (ok [], t)
  locals_of adds (a ∷ as') t =
      if is_blank a.hash
      then locals_of adds as' t
      else after_check adds a (is_valid t a.hash) t (locals_of adds as')

  unfoldable pub compute_delta_locals : List AddAction → T → Result (List Text) × T
  unfolding is_valid place
  compute_delta_locals adds t = locals_of adds adds t

abbrev pub is_local : List Text → Text → Bool
is_local hashes hash = any (λ h. same h hash) hashes

unfoldable pub files_to_download : List AddAction → List Text → List Text
files_to_download adds hashes =
    map (λ (a : AddAction). a.path)
      (keep (λ (a : AddAction). not (is_blank a.hash) && not (is_local hashes a.hash)) adds)
