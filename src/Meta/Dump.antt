-- ===== src/Meta/Dump.antt =====
-- `dump`, `restore` and `bulkRemove` of library/metamanager.cpp: many rows at once.
use drone_db.Base.{
  ℕ, ◌+◌, Bool, true, false, ◌&&◌, not, Option, none, some, List, [], ◌∷◌, Text, same, any, keep,
  last?, ltb, lt, if◌then◌else◌, Result, ok, err, invalid_args, undefined, ◌>>=◌,
}
use drone_db.Base.Sort.{sort}
use drone_db.Meta.{MetaRow, holds, has_id, is_blank, ends_with, delete_where, replace_row, remove}
use drone_db.Transaction.{Connection, Fault, in_transaction}

abbrev pub by_id : MetaRow → MetaRow → Bool
by_id r s = lt r.id s.id

-- no ids: every row
unfoldable pub dump : List Text → List MetaRow → List MetaRow
dump [] rows = sort by_id rows
dump (i ∷ ids) rows = sort by_id (keep (λ r. any (same r.id) (i ∷ ids)) rows)

-- An object of a dump, of which any field may be missing.
pub record DumpedMeta : Type 0 where
  pub id : Option Text
  pub path : Option Text
  pub key : Option Text
  pub meta_data : Option Text
  pub mtime : Option ℕ

abbrev pub or_invalid {ℓ} : {A : Type ℓ} → Option A → Result A
or_invalid none = err invalid_args
or_invalid (some a) = ok a

abbrev pub read_meta : DumpedMeta → Result MetaRow
read_meta m = do
  id ← or_invalid m.id
  path ← or_invalid m.path
  key ← or_invalid m.key
  meta_data ← or_invalid m.meta_data
  mtime ← or_invalid m.mtime
  ok (record { id = id; path = path; key = key; meta_data = meta_data; mtime = mtime })

-- `key[key.length() - 1]` is neither `S` nor `s`; there is no such byte in an empty key.
abbrev pub is_singular : Text → Bool
is_singular key = not (ends_with b'S' (last? key)) && not (ends_with b's' (last? key))

-- The rows that the cursor of `singularDupQ` passes: older ones are removed, and any other is
-- newer.
unfoldable pub sift : ℕ → List MetaRow → List MetaRow → Result (Bool × List MetaRow)
sift mtime [] rows = ok (false, rows)
sift mtime (r ∷ rs) rows =
    if ltb r.mtime mtime
    then remove none r.id rows >>= (λ removed. sift mtime rs removed.1)
    else sift mtime rs rows >>= (λ sifted. ok (true, sifted.1))

-- `continue` where a row is newer
abbrev pub after_sift : Bool → MetaRow → List MetaRow → ℕ × List MetaRow
after_sift true r rows = (0, rows)
after_sift false r rows = (1, replace_row r rows)

-- An object, with the number of rows that are put
unfoldable pub restore_row : MetaRow → List MetaRow → Result (ℕ × List MetaRow)
unfolding replace_row
restore_row r rows =
    if is_blank r.key
    then err undefined
    else if is_singular r.key
    then (do
      sifted ← sift r.mtime (keep (holds r.path r.key) rows) rows
      ok (after_sift sifted.0 r sifted.1))
    else ok (1, replace_row r rows)

unfoldable pub restore_all : List DumpedMeta → List MetaRow → Result (ℕ × List MetaRow)
restore_all [] rows = ok (0, rows)
restore_all (m ∷ ms) rows =
    read_meta m
    >>= (λ r. restore_row r rows)
    >>= (λ first. restore_all ms first.1 >>= (λ rest. ok (first.0 + rest.0, rest.1)))

abbrev pub outcome_or : List MetaRow → Result (ℕ × List MetaRow) → Result ℕ × List MetaRow
outcome_or rows (ok (n, rows')) = (ok n, rows')
outcome_or rows (err e) = (err e, rows)

abbrev pub as_body :
    (List MetaRow → Result (ℕ × List MetaRow)) → List MetaRow → Result ℕ × List MetaRow
as_body f rows = outcome_or rows (f rows)

unfoldable pub restore :
    Fault
    → Fault
    → List DumpedMeta
    → Connection (List MetaRow)
    → Result ℕ × Connection (List MetaRow)
unfolding restore_all
restore begin_fault commit_fault meta_dump conn =
    in_transaction begin_fault commit_fault (as_body (restore_all meta_dump)) conn

-- The number that is returned counts the ids.
unfoldable pub remove_all : List Text → List MetaRow → Result (ℕ × List MetaRow)
unfolding delete_where
remove_all [] rows = ok (0, rows)
remove_all (i ∷ ids) rows =
    remove_all ids (delete_where (has_id i) rows) >>= (λ rest. ok (rest.0 + 1, rest.1))

unfoldable pub bulk_remove :
    Fault → Fault → List Text → Connection (List MetaRow) → Result ℕ × Connection (List MetaRow)
unfolding remove_all
bulk_remove begin_fault commit_fault ids conn =
    in_transaction begin_fault commit_fault (as_body (remove_all ids)) conn
