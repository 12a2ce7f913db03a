-- ===== src/Meta.antt =====
-- library/metamanager.cpp: metadata of the entries, in the table `entries_meta` with the id as its
-- primary key.
-- `relative path cwd` is the generic path that `entryPath` takes from the file system library, and
-- `parse_dump` is `json::parse(text).dump()`, none where parsing throws. A new row gets its id from
-- a trigger: `new_id`. `now` is `currentUnixTimestamp()`. Times are not negative. A fault is how a
-- statement ends that finds the database busy or failing.
pub mod Dump
pub mod Rows
pub mod Store
pub mod Sift
pub mod Restore
pub mod Bulk
mod Tests
use drone_db.Base.{
  ℕ, ◌+◌, Bool, true, false, ◌&&◌, ◌||◌, not, Option, none, some, List, [], ◌∷◌, ◌++◌, map, Text,
  same, any, keep, length, last?, ltb, leb, eqb, bytes, if◌then◌else◌, is_some, Error, Result, ok,
  err, invalid_args, json_error, sql_error, undefined, ◌>>=◌,
}
use drone_db.Index.Table.{Table, find_row}
use drone_db.Transaction.{Fault}

pub record MetaRow : Type 0 where
  pub id : Text
  pub path : Text
  pub key : Text
  pub meta_data : Text
  pub mtime : ℕ

-- the object of `metaStmtToJson`, its data by its text
pub record MetaJson : Type 0 where
  pub id : Text
  pub meta_data : Text
  pub mtime : ℕ

abbrev pub fails_with : Fault → Result (Unit {0})
fails_with none = ok tt
fails_with (some e) = err e

-- `std::isupper` on a byte in the C locale
unfoldable pub is_lower_case : Text → Bool
is_lower_case key = not (any (λ c. leb b'A' c && leb c b'Z') key)

abbrev pub ends_with : ℕ → Option ℕ → Bool
ends_with c none = false
ends_with c (some d) = eqb c d

unfoldable pub is_list : Text → Bool
is_list key = ends_with b's' (last? key)

abbrev pub is_blank : Text → Bool
is_blank [] = true
is_blank (c ∷ cs) = false

unfoldable pub get_key : Text → Bool → Result Text
unfolding is_list is_lower_case
get_key key list =
    if is_blank key
    then err invalid_args
    else if not (is_lower_case key)
    then err invalid_args
    else if list && not (is_list key)
    then err invalid_args
    else if not list && is_list key
    then err invalid_args
    else ok key

unfoldable pub entry_path : (Text → Text → Text) → Table → Text → Text → Result Text
entry_path relative index [] cwd = ok []
entry_path relative index (c ∷ cs) cwd =
    if is_some (find_row (relative (c ∷ cs) cwd) index)
    then ok (relative (c ∷ cs) cwd)
    else err invalid_args

unfoldable pub validate_data : (Text → Option Text) → Text → Result Text
validate_data parse_dump meta_data = elim (parse_dump meta_data) [
  | some text ↦ ok text
  | none ↦ elim (parse_dump (b'"' ∷ meta_data ++ b'"' ∷ [])) [
    | some text ↦ ok text
    | none ↦ err json_error
  ]
]

abbrev pub holds : Text → Text → MetaRow → Bool
holds p k r = same r.path p && same r.key k

abbrev pub has_id : Text → MetaRow → Bool
has_id i r = same r.id i

-- DELETE ... WHERE ...
unfoldable pub delete_where : (MetaRow → Bool) → List MetaRow → List MetaRow
unfolding keep
delete_where q rows = keep (λ r. not (q r)) rows

unfoldable pub insert_row : MetaRow → List MetaRow → Result (List MetaRow)
insert_row r rows = if any (has_id r.id) rows then err sql_error else ok (rows ++ r ∷ [])

-- INSERT OR REPLACE
unfoldable pub replace_row : MetaRow → List MetaRow → List MetaRow
unfolding delete_where
replace_row r rows = delete_where (has_id r.id) rows ++ r ∷ []

-- What `get` returns: an array for a plural key.
pub data Found : Type 0 where
  many : List MetaJson → Found
  single : MetaJson → Found

abbrev pub found_for : Bool → List MetaJson → Result Found
found_for list [] = err invalid_args
found_for list (j ∷ js) = ok (if list then many (j ∷ js) else single j)

module _ (parse_dump : Text → Option Text) where
  abbrev pub meta_json : MetaRow → MetaJson
  meta_json r = record {
    id = r.id;
    meta_data = elim (parse_dump r.meta_data) [ some text ↦ text | none ↦ b'"' ∷ b'"' ∷ [] ];
    mtime = r.mtime;
  }

  abbrev pub after_insert :
      MetaRow → List MetaRow → Result (List MetaRow) → Result MetaJson × List MetaRow
  after_insert r rest (err e) = (err e, rest)
  after_insert r rest (ok rows) = (ok (meta_json r), rows)

  -- Two statements, each on its own: the table is what is left, also after an exception.
  set_rows :
      Text → ℕ → Fault → Fault → Text → Text → Text → List MetaRow → Result MetaJson × List MetaRow
  unfolding insert_row delete_where
  set_rows new_id now (some e) insert_fault p k d rows = (err e, rows)
  set_rows new_id now none (some e) p k d rows = (err e, delete_where (holds p k) rows)
  set_rows new_id now none none p k d rows =
      let r : MetaRow = record { id = new_id; path = p; key = k; meta_data = d; mtime = now } in
      let rest = delete_where (holds p k) rows in after_insert r rest (insert_row r rest)

  module _ (relative : Text → Text → Text) (index : Table) where
    unfoldable pub add :
        Text
        → ℕ
        → Fault
        → Text
        → Text
        → Text
        → Text
        → List MetaRow
        → Result (MetaJson × List MetaRow)
    unfolding insert_row
    add new_id now fault key meta_data path cwd rows = do
      p ← entry_path relative index path cwd
      k ← get_key key true
      d ← validate_data parse_dump meta_data
      _ ← fails_with fault
      let r : MetaRow = record { id = new_id; path = p; key = k; meta_data = d; mtime = now }
      rows' ← insert_row r rows
      ok (meta_json r, rows')

    set_checked :
        Text
        → ℕ
        → Fault
        → Fault
        → List MetaRow
        → Result (Text × Text × Text)
        → Result MetaJson × List MetaRow
    unfolding set_rows
    set_checked new_id now delete_fault insert_fault rows (err e) = (err e, rows)
    set_checked new_id now delete_fault insert_fault rows (ok (p, k, d)) =
        set_rows new_id now delete_fault insert_fault p k d rows

    unfoldable pub set :
        Text
        → ℕ
        → Fault
        → Fault
        → Text
        → Text
        → Text
        → Text
        → List MetaRow
        → Result MetaJson × List MetaRow
    unfolding set_checked
    set new_id now delete_fault insert_fault key meta_data path cwd rows =
        set_checked new_id now delete_fault insert_fault rows (do
          p ← entry_path relative index path cwd
          k ← get_key key false
          d ← validate_data parse_dump meta_data
          ok (p, k, d))

    unfoldable pub get : Text → Text → Text → List MetaRow → Result Found
    get key path cwd rows = if is_blank key then err invalid_args else (do
      p ← entry_path relative index path cwd
      found_for (is_list key) (map meta_json (keep (holds p key) rows)))

    -- with the number of rows that are removed
    unfoldable pub unset : Fault → Text → Text → Text → List MetaRow → Result (ℕ × List MetaRow)
    unfolding delete_where
    unset fault key path cwd rows = if is_blank key then err invalid_args else (do
      p ← entry_path relative index path cwd
      _ ← fails_with fault
      ok (length (keep (holds p key) rows), delete_where (holds p key) rows))

unfoldable pub remove : Fault → Text → List MetaRow → Result (ℕ × List MetaRow)
unfolding delete_where
remove fault id rows = if is_blank id then err invalid_args else (do
  _ ← fails_with fault
  ok (length (keep (has_id id) rows), delete_where (has_id id) rows))
