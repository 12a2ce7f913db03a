-- ===== src/Sync/Tests.antt =====
-- An index of the files `a`, which is gone, `b`, which has changed, and the folder `d`. Relative and
-- absolute paths are the same here.
use drone_db.Base.{
  ◌≡◌, refl, sym, ap, ok-injective, Bool, true, false, ◌||◌, none, some, [], ◌∷◌, Text, same, bytes,
  Result, ok, err, ◌⊎◌, Error,
}
use drone_db.Index.Table.{generic, directory, Entry, empty_entry, find_row, HasUniqueRows}
use drone_db.Index.Check.{Files}
use drone_db.Transaction.{Connection}
use drone_db.Move.{Stored}
use drone_db.Sync.{sync_index, rescan_index}
use drone_db.Sync.Outcome.{synced, sync_exact}
use drone_db.Sync.Rescan.{ScansOrNot, rescan_exact}

abbrev id : Text → Text
id p = p

abbrev disk : Files
disk = record {
  exists = λ p. same p (bytes "b") || same p (bytes "d");
  is_directory = λ p. same p (bytes "d");
  mtime_of = λ p. some 5;
  size_of = λ p. some 9;
  sha256 = λ p. ok p;
}

abbrev parse_any : Files → Text → Entry → Result Entry
parse_any f p e = ok (record empty_entry { path = p; hash = p; mtime = 5; size = 9 })

parsed_any : (f : Files) (q : Text) (e e' : Entry) → parse_any f q e ≡ ok e' → e'.path ≡ id q
parsed_any f q e e' h = ap (λ (x : Entry). x.path) (sym (ok-injective h))

abbrev never : Text → Bool
never h = false

abbrev file_of : Text → Entry
file_of p = record empty_entry { path = p; hash = bytes "old"; type = generic; mtime = 2; size = 4 }

abbrev tables : Stored
tables = record {
  entries =
      file_of (bytes "a")
      ∷ file_of (bytes "b")
      ∷ record empty_entry { path = bytes "d"; type = directory }
      ∷ [];
  metas = [];
}

abbrev at_rest : Connection Stored
at_rest = record { committed = tables; working = none }

rows_are_unique : HasUniqueRows tables.entries
unfolding find_row same
rows_are_unique = (refl, (refl, (refl, tt)))

abbrev kept : Text → Bool
kept h = true

abbrev ready : Connection Stored × (Text → Bool)
ready = (at_rest, kept)

sync_exact_example :
    let ((r, c'), builds') = sync_index id parse_any disk never none none ready in
    (c'.working ≡ none)
    × (((e : Error) × (r ≡ err e) × (c'.committed ≡ tables))
        ⊎ ((r ≡ ok tt)
            × ((p : Text)
                → find_row p c'.committed.entries ≡ (elim (find_row p tables.entries) [
                  | none ↦ none
                  | some row ↦ synced id id (λ q. refl) parse_any parsed_any disk never row
                ]))))
sync_exact_example =
    sync_exact id id (λ q. refl) parse_any parsed_any disk never none none at_rest kept refl
      rows_are_unique

rescan_exact_example :
    ScansOrNot id id
      (λ q. refl)
      parse_any
      parsed_any
      disk
      false
      none
      []
      tables
      (rescan_index id parse_any disk false none none none [] at_rest)
rescan_exact_example =
    rescan_exact id id (λ q. refl) parse_any parsed_any disk false none none none [] tables
      rows_are_unique
