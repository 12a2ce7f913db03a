-- ===== src/Meta/Tests.antt =====
-- An index with the file `a`, and values of the keys `note` and `tags`. Values are their own texts
-- here, where a text without a quote is no JSON.
use drone_db.Base.{
  ℕ, ◌≡◌, ◌⊎◌, refl, false, Option, none, some, List, [], ◌∷◌, ◌++◌, Text, same, bytes, any, keep,
  eqb, Error, ok, err, arith, if◌then◌else◌,
}
use drone_db.Index.Table.{Table, empty_entry, find_row}
use drone_db.Transaction.{
  Connection, construct, destroy, commit, exec_begin, exec_commit, in_transaction,
}
use drone_db.Meta.{
  MetaRow, single, meta_json, entry_path, get_key, is_list, is_lower_case, validate_data,
  delete_where, insert_row, replace_row, set, get, add, unset, remove,
}
use drone_db.Meta.Dump.{DumpedMeta, sift, restore_row, restore_all, restore}
use drone_db.Meta.Sift.{HasSingles}
use drone_db.Meta.Store.{set_then_get}
use drone_db.Meta.Restore.{restore_keeps_singles}

abbrev parse_quoted : Text → Option Text
parse_quoted [] = none
parse_quoted (c ∷ cs) = if eqb c b'"' then some (c ∷ cs) else none

abbrev given : Text → Text → Text
given path cwd = path

abbrev index : Table
index = record empty_entry { path = bytes "a" } ∷ []

abbrev old_note : MetaRow
old_note = record {
  id = bytes "1";
  path = bytes "a";
  key = bytes "note";
  meta_data = b'"' ∷ b'"' ∷ [];
  mtime = 3;
}

abbrev old_tag : MetaRow
old_tag = record {
  id = bytes "2";
  path = bytes "a";
  key = bytes "tags";
  meta_data = b'"' ∷ b'"' ∷ [];
  mtime = 4;
}

abbrev rows : List MetaRow
rows = old_note ∷ old_tag ∷ []

abbrev hi : Text
hi = b'"' ∷ b'h' ∷ b'i' ∷ b'"' ∷ []

abbrev new_note : MetaRow
new_note = record {
  id = bytes "9";
  path = bytes "a";
  key = bytes "note";
  meta_data = hi;
  mtime = 7;
}

abbrev new_tag : MetaRow
new_tag = record { id = bytes "9"; path = bytes "a"; key = bytes "tags"; meta_data = hi; mtime = 7 }

set_hi :
    set parse_quoted given index
      (bytes "9")
      7
      none
      none
      (bytes "note")
      (bytes "hi")
      (bytes "a")
      []
      rows
    ≡ (ok (meta_json parse_quoted new_note), old_tag ∷ new_note ∷ [])
unfolding set entry_path find_row same get_key is_list is_lower_case any validate_data delete_where
    keep insert_row
set_hi = refl

set_then_get_example :
    (get parse_quoted given index (bytes "note") (bytes "a") [] (old_tag ∷ new_note ∷ [])
      ≡ ok (single (meta_json parse_quoted new_note)))
    × ((other path' cwd' : Text)
        → same (bytes "note") other ≡ false
        → get parse_quoted given index other path' cwd' (old_tag ∷ new_note ∷ [])
          ≡ get parse_quoted given index other path' cwd' rows)
set_then_get_example =
    set_then_get parse_quoted given index (bytes "9") 7 none none (bytes "note") (bytes "hi")
      (bytes "a") [] rows (meta_json parse_quoted new_note) (old_tag ∷ new_note ∷ []) set_hi

add_hi :
    add parse_quoted given index (bytes "9") 7 none (bytes "tags") (bytes "hi") (bytes "a") [] rows
    ≡ ok (meta_json parse_quoted new_tag, rows ++ new_tag ∷ [])
unfolding add entry_path find_row same get_key is_list is_lower_case any validate_data insert_row
add_hi = refl

unset_note :
    unset parse_quoted given index none (bytes "note") (bytes "a") [] rows ≡ ok (1, old_tag ∷ [])
unfolding unset entry_path find_row same delete_where keep
unset_note = refl

abbrev at_rest : Connection (List MetaRow)
at_rest = record { committed = old_note ∷ []; working = none }

abbrev dumped_note : DumpedMeta
dumped_note = record {
  id = some (bytes "9");
  path = some (bytes "a");
  key = some (bytes "note");
  meta_data = some hi;
  mtime = some 7;
}

-- the newer note takes the place of the older
restore_newer :
    restore none none (dumped_note ∷ []) at_rest
    ≡ (ok 1, record { committed = new_note ∷ []; working = none })
unfolding restore in_transaction construct exec_begin exec_commit commit destroy restore_all
    restore_row sift remove replace_row delete_where keep same any
restore_newer = refl

one_note-HasSingles : HasSingles (old_note ∷ [])
unfolding keep
one_note-HasSingles p k h = ground arith

restore_keeps_singles_example :
    ((restore none none (dumped_note ∷ []) at_rest).1.working ≡ none)
    × (((n : ℕ) × ((restore none none (dumped_note ∷ []) at_rest).0 ≡ ok n)
          × (restore_all (dumped_note ∷ []) (old_note ∷ [])
              ≡ ok (n, (restore none none (dumped_note ∷ []) at_rest).1.committed))
          × HasSingles (restore none none (dumped_note ∷ []) at_rest).1.committed)
        ⊎ ((e : Error) × ((restore none none (dumped_note ∷ []) at_rest).0 ≡ err e)
            × ((restore none none (dumped_note ∷ []) at_rest).1.committed ≡ old_note ∷ [])))
restore_keeps_singles_example =
    restore_keeps_singles none none (dumped_note ∷ []) at_rest refl one_note-HasSingles
