-- ===== src/Move.antt =====
-- `moveEntry` of library/dbops.cpp, and the operations on paths that it uses.
-- `depth` is `io::Path::depth`, `extension` that of `std::filesystem`, `fingerprint` reads a file's
-- type (library/entry.cpp). `like` is SQLite's LIKE, a pattern and a text, and `missing_folders` the
-- rows of FOLDER_CONSISTENCY_QUERY.
pub mod File
pub mod Outcome
mod Tests
use drone_db.Base.{
  ℕ, Bool, true, false, ◌&&◌, ◌||◌, not, Option, none, some, List, [], ◌∷◌, ◌++◌, map, Text, same,
  bytes, eqb, any, last?, if◌then◌else◌, Error, Result, ok, err, invalid_args, sql_error, undefined,
  other_error, ◌>>=◌, keep,
}
use drone_db.Index.Table.{
  EntryType, directory, Entry, Table, empty_entry, find_row, has_row, insert_row, delete_row,
}
use drone_db.Index.EntryTypes.{code_of}
use drone_db.Transaction.{Connection, Fault, in_transaction}
use drone_db.Meta.{MetaRow, is_blank, delete_where}

-- the two tables
pub record Stored : Type 0 where
  pub entries : Table
  pub metas : List MetaRow

-- `getline` by slashes
unfoldable pub segments_from : Text → Text → List Text
segments_from seg [] = seg ∷ []
segments_from seg (c ∷ cs) =
    if eqb c b'/' then seg ∷ segments_from [] cs else segments_from (seg ++ c ∷ []) cs

unfoldable pub has_dot_notation : Text → Bool
has_dot_notation p =
    any (λ seg. same seg (b'.' ∷ b'.' ∷ []) || same seg (b'.' ∷ [])) (segments_from [] p)

-- The byte before the end of an empty path is no byte.
unfoldable pub check_path : Text → Result (Unit {0})
unfolding has_dot_notation
check_path p = elim (last? p) [
  | none ↦ err undefined
  | some c ↦
      if eqb c b'/' || eqb c b'\\'
      then err invalid_args
      else if has_dot_notation p
      then err invalid_args
      else ok tt
]

unfoldable pub check_delete_meta : Text → List MetaRow → List MetaRow
check_delete_meta p metas = if is_blank p then metas else delete_where (λ m. same m.path p) metas

unfoldable pub delete_entry : Text → Stored → Stored
unfolding check_delete_meta
delete_entry p s = record { entries = delete_row p s.entries; metas = check_delete_meta p s.metas }

abbrev pub is_folder : EntryType → Bool
is_folder directory = true
is_folder _ = false

-- Whether the move is allowed, and the entry that is moved.
unfoldable pub movable : Option Entry → Option Entry → Result Entry
movable none there = err invalid_args
movable (some e) none = ok e
movable (some e) (some d) = if is_folder e.type || is_folder d.type then err invalid_args else ok e

-- UPDATE entries SET type = ? WHERE path = ?
abbrev pub retyped : EntryType → Text → Table → Table
retyped type p t = map (λ (e : Entry). if same e.path p then record e { type = type } else e) t

abbrev pub retype : EntryType → EntryType → Text → Stored → Stored
retype old new p s =
    if eqb (code_of new) (code_of old) then s else record s { entries = retyped new p s.entries }

module _ (depth : Text → ℕ) where
  abbrev pub moved_row : Text → Text → Entry → Entry
  moved_row source dest e =
      if same e.path source then record e { path = dest; depth = depth dest } else e

  abbrev pub moved_meta : Text → Text → MetaRow → MetaRow
  moved_meta source dest m = if same m.path source then record m { path = dest } else m

  -- The primary key refuses a second row of a path.
  unfoldable pub replace_path : Text → Text → Stored → Result Stored
  replace_path source dest s =
      if not (same source dest) && has_row source s.entries && has_row dest s.entries
      then err sql_error
      else ok (record {
        entries = map (moved_row source dest) s.entries;
        metas = map (moved_meta source dest) s.metas;
      })

  module _ (extension : Text → Text) (fingerprint : Text → Result EntryType)
      (like : Text → Text → Bool) (missing_folders : Table → List Text) (now : ℕ) where
    -- `e` is the entry of `source`.
    unfoldable pub move_file : Entry → Text → Text → Stored → Result Stored
    move_file e source dest s = do
      let cleared : Stored = if has_row dest s.entries then delete_entry dest s else s
      moved ← replace_path source dest cleared
      if same (extension source) (extension dest)
          then ok moved
          else fingerprint dest >>= (λ type. ok (retype e.type type dest moved))

    unfoldable pub list_folder_paths : Text → Table → List Text
    list_folder_paths p t =
        map (λ (e : Entry). e.path)
          (keep (λ (e : Entry). like (p ++ b'/' ∷ b'%' ∷ []) e.path || same e.path p) t)

    -- `substr(source.length())`; past the end it throws.
    unfoldable pub rest_of : Text → Text → Result Text
    rest_of [] p = ok p
    rest_of (c ∷ source) [] = err other_error
    rest_of (c ∷ source) (d ∷ p) = rest_of source p

    unfoldable pub move_paths : Text → Text → List Text → Stored → Result Stored
    unfolding rest_of
    move_paths source dest [] s = ok s
    move_paths source dest (p ∷ ps) s =
        rest_of source p
        >>= (λ rest. replace_path p (dest ++ rest) (delete_entry (dest ++ rest) s))
        >>= (λ moved. move_paths source dest ps moved)

    abbrev pub folder_entry : Text → Entry
    folder_entry p = record empty_entry {
      path = p;
      type = directory;
      properties = bytes "null";
      mtime = now;
      depth = depth p;
    }

    unfoldable pub add_folders : List Text → Table → Result Table
    add_folders [] t = ok t
    add_folders (p ∷ ps) t = insert_row (folder_entry p) t >>= (λ t'. add_folders ps t')

    unfoldable pub create_missing_folders : Stored → Result Stored
    create_missing_folders s =
        add_folders (missing_folders s.entries) s.entries >>= (λ t. ok (record s { entries = t }))

    unfoldable pub move_folder : Text → Text → Stored → Result Stored
    move_folder source dest s =
        move_paths source dest (list_folder_paths source s.entries) s >>= create_missing_folders

    abbrev pub stored_or : Stored → Result Stored → Result (Unit {0}) × Stored
    stored_or s (ok s') = (ok tt, s')
    stored_or s (err e) = (err e, s)

    abbrev pub move_body : Entry → Text → Text → Stored → Result (Unit {0}) × Stored
    move_body e source dest s =
        stored_or s
          (if is_folder e.type then move_folder source dest s else move_file e source dest s)

    abbrev pub run_move :
        Fault
        → Fault
        → Text
        → Text
        → Connection Stored
        → Result Entry
        → Result (Unit {0}) × Connection Stored
    run_move begin_fault commit_fault source dest c (err x) = (err x, c)
    run_move begin_fault commit_fault source dest c (ok e) =
        in_transaction begin_fault commit_fault (move_body e source dest) c

    abbrev pub move_checked :
        Fault
        → Fault
        → Text
        → Text
        → Connection Stored
        → Result (Unit {0})
        → Result (Unit {0}) × Connection Stored
    move_checked begin_fault commit_fault source dest c (err x) = (err x, c)
    move_checked begin_fault commit_fault source dest c (ok _) =
        if same source dest
        then (ok tt, c)
        else run_move begin_fault commit_fault source dest c
            (movable (find_row source c.committed.entries) (find_row dest c.committed.entries))

    unfoldable pub move_entry :
        Fault → Fault → Text → Text → Connection Stored → Result (Unit {0}) × Connection Stored
    unfolding move_file move_folder
    move_entry begin_fault commit_fault source dest c =
        move_checked begin_fault commit_fault source dest c
          (check_path source >>= (λ _. check_path dest))
