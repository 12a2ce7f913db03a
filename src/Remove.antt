-- ===== src/Remove.antt =====
-- `removeFromIndex`, `deleteFromIndex` and `getMatchingEntries` of library/dbops.cpp, and
-- `stringReplace` of library/utils.cpp.
-- `like` is SQLite's `text LIKE pattern ESCAPE '/'`, the pattern first. `relative_to` takes a path to
-- the generic path below the root directory.
pub mod Pattern
pub mod Delete
pub mod Matches
pub mod Paths
pub mod Others
mod Tests
use drone_db.Base.{
  ℕ, zero, suc, ◌+◌, ◌-◌, Bool, true, false, ◌&&◌, not, Option, none, some, List, [], ◌∷◌, ◌++◌,
  map, Text, same, bytes, eqb, leb, any, length, keep, max, if◌then◌else◌, Error, Result, ok, err,
  fs_error, ◌>>=◌,
}
use drone_db.Index.Table.{Entry, Table}
use drone_db.Transaction.{Connection, Fault, in_transaction}
use drone_db.Meta.{MetaRow, delete_where, is_blank}
use drone_db.Move.{Stored, is_folder}

abbrev pub starts_with : Text → Text → Bool
starts_with [] s = true
starts_with (c ∷ from) [] = false
starts_with (c ∷ from) (d ∷ s) = eqb c d && starts_with from s

-- `find` and `replace` from the left; the first argument counts the bytes of a match that are still
-- to be left out.
unfoldable pub replace_from : ℕ → Text → Text → Text → Text
replace_from skipped from to [] = []
replace_from (suc skipped) from to (c ∷ s) = replace_from skipped from to s
replace_from zero from to (c ∷ s) =
    let found = to ++ replace_from (length from - 1) from to s in
    let rest = c ∷ replace_from zero from to s in if starts_with from (c ∷ s) then found else rest

unfoldable pub string_replace : Text → Text → Text → Text
unfolding replace_from
string_replace s from to = if is_blank from then s else replace_from 0 from to s

unfoldable pub sanitize_query_param : Text → Text
unfolding string_replace
sanitize_query_param str =
    string_replace
      (string_replace (string_replace str (bytes "/") (bytes "//")) (bytes "%") (bytes "/%"))
      (bytes "*") (bytes "%")

unfoldable pub pattern_of : Text → Bool → Text
unfolding sanitize_query_param
pattern_of query in_folder =
    if in_folder then sanitize_query_param query ++ bytes "//%" else sanitize_query_param query

-- the pattern of `getMatchingEntries`, where an empty query matches every path
unfoldable pub match_pattern : Text → Bool → Text
unfolding sanitize_query_param
match_pattern query in_folder =
    let sanitized =
      if is_blank (sanitize_query_param query) then bytes "%" else sanitize_query_param query in
    if in_folder then sanitized ++ bytes "//%" else sanitized

-- What a deletion counts, what it tells the callback, and the hashes whose build folders it removes.
pub record Deletion : Type 0 where
  pub count : ℕ
  pub told : List Text
  pub hashes : List Text

-- The folders of `buildDirectory()`, by hash, and the ones whose removal fails; that is logged.
unfoldable pub remove_builds : (Text → Bool) → List Text → (Text → Bool) → Text → Bool
remove_builds stuck [] builds = builds
remove_builds stuck (h ∷ hashes) builds =
    remove_builds stuck hashes (λ b. builds b && not (same b h && not (stuck h)))

abbrev pub hashes_of : Table → List Text
hashes_of t = keep (λ h. not (is_blank h)) (map (λ (e : Entry). e.hash) t)

-- The join with `entries_meta` gives a row for each metadata of an entry, and one where it has
-- none.
abbrev pub repeated : ℕ → Entry → List Entry → List Entry
repeated zero e rest = rest
repeated (suc n) e rest = e ∷ repeated n e rest

abbrev pub metas_of : Text → List MetaRow → ℕ
metas_of p metas = length (keep (λ (m : MetaRow). same m.path p) metas)

abbrev pub joined : List MetaRow → Table → List Entry
joined metas [] = []
joined metas (e ∷ t) = repeated (max 1 (metas_of e.path metas)) e (joined metas t)

abbrev pub within_depth : ℕ → Entry → Bool
within_depth zero e = true
within_depth (suc n) e = leb e.depth n

-- The connection and the build folders.
abbrev pub Disk : Type 0
Disk = Connection Stored × (Text → Bool)

abbrev pub with_builds :
    (Text → Bool) → (Text → Bool) → Result Deletion × Connection Stored → Result ℕ × Disk
with_builds stuck builds (err e, c) = (err e, (c, builds))
with_builds stuck builds (ok d, c) = (ok d.count, (c, remove_builds stuck d.hashes builds))

abbrev pub then_call : Result ℕ × Disk → (Disk → Result ℕ × Disk) → Result ℕ × Disk
then_call (err e, d) next = (err e, d)
then_call (ok n, d) next = (elim (next d).0 [ ok m ↦ ok (n + m) | err e ↦ err e ], (next d).1)

abbrev pub some_match : Result ℕ × Disk → Result (Unit {0}) × Disk
some_match (err e, d) = (err e, d)
some_match (ok zero, d) = (err fs_error, d)
some_match (ok (suc n), d) = (ok tt, d)

abbrev pub then_path :
    Result (Unit {0}) × Disk → (Disk → Result (Unit {0}) × Disk) → Result (Unit {0}) × Disk
then_path (err e, d) next = (err e, d)
then_path (ok _, d) next = next d

module _ (like : Text → Text → Bool) where
  abbrev pub matching : Text → Table → Table
  matching pattern t = keep (λ (e : Entry). like pattern e.path) t

  abbrev pub delete_body : Text → Stored → Result Deletion × Stored
  delete_body pattern s = (
    ok (record {
      count = length (matching pattern s.entries);
      told = map (λ (e : Entry). e.path) (matching pattern s.entries);
      hashes = hashes_of (matching pattern s.entries);
    }),
    record {
      entries = keep (λ (e : Entry). not (like pattern e.path)) s.entries;
      metas = delete_where (λ m. like pattern m.path) s.metas;
    },
  )

  unfoldable pub delete_from_index :
      Fault → Fault → Text → Bool → Connection Stored → Result Deletion × Connection Stored
  unfolding pattern_of
  delete_from_index begin_fault commit_fault query in_folder c =
      in_transaction begin_fault commit_fault (delete_body (pattern_of query in_folder)) c

  -- `maxRecursionDepth`, none where it is negative
  unfoldable pub get_matching_entries : Text → Option ℕ → Bool → Stored → Result (List Entry)
  unfolding match_pattern
  get_matching_entries query none in_folder s = err fs_error
  get_matching_entries query (some depth) in_folder s = ok (
      joined s.metas
        (keep (within_depth depth) (matching (match_pattern query in_folder) s.entries)))

  module _ (stuck : Text → Bool) (faults : Text → Bool → Fault × Fault) where
    -- One call, with its BEGIN and COMMIT.
    unfoldable pub delete_call : Text → Bool → Disk → Result ℕ × Disk
    unfolding delete_from_index remove_builds
    delete_call query in_folder (c, builds) =
        with_builds stuck builds (
          delete_from_index (faults query in_folder).0 (faults query in_folder).1 query in_folder c)

    unfoldable pub delete_matches : List Entry → Disk → Result ℕ × Disk
    unfolding delete_call
    delete_matches [] d = (ok 0, d)
    delete_matches (e ∷ es) d =
        then_call
          (if is_folder e.type
            then then_call (delete_call e.path false d) (delete_call e.path true)
            else delete_call e.path false d)
          (delete_matches es)

    abbrev pub matches_in : Text → Disk → List Entry
    matches_in q (c, builds) = elim (get_matching_entries q (some 0) false c.committed) [
      | ok es ↦ es
      | err e ↦ []
    ]

    -- Each path is a call for each match, on its own: what was deleted before an exception stays so.
    unfoldable pub remove_from_index : (Text → Text) → List Text → Disk → Result (Unit {0}) × Disk
    unfolding delete_matches get_matching_entries
    remove_from_index relative_to [] d = (ok tt, d)
    remove_from_index relative_to (p ∷ ps) d =
        then_path (some_match (delete_matches (matches_in (relative_to p) d) d))
          (remove_from_index relative_to ps)
