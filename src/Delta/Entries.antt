-- ===== src/Delta/Entries.antt =====
-- What the two searches of a stamp's entries find, and that sorting does not change it.
use drone_db.Base.{
  ◌≡◌, Bool, true, ◌&&◌, List, [], ◌∷◌, arith, Text, same, same_iff, same_refl, any, Bool-cases,
  inl, inr,
}
use drone_db.Base.Sort.{sort, any-sort}
use drone_db.Delta.{SimpleEntry, by_path, has_entry, has_path, is_directory, same_kind}

pub has_entry-sort :
    (p h : Text) (es : List SimpleEntry) → has_entry p h (sort by_path es) ≡ has_entry p h es
unfolding has_entry
has_entry-sort p h es = any-sort by_path _ es

pub has_path-sort :
    (p : Text) (folder : Bool) (es : List SimpleEntry)
    → has_path p folder (sort by_path es) ≡ has_path p folder es
unfolding has_path
has_path-sort p folder es = any-sort by_path _ es

-- An entry is found under its path and kind.
pub has_path_of_entry :
    (p h : Text) (es : List SimpleEntry)
    → has_entry p h es ≡ true
    → has_path p (is_directory h) es ≡ true
unfolding has_entry has_path any
has_path_of_entry p h [] e = e
has_path_of_entry p h (x ∷ es) e =
    ground (arith, has_path_of_entry p h es, same_iff x.hash h, same_iff x.path p)

-- What is found under a path and a kind is an entry of that path, with a hash of that kind.
pub entry_of_path :
    (p : Text) (folder : Bool) (es : List SimpleEntry)
    → has_path p folder es ≡ true
    → (h : Text) × (has_entry p h es ≡ true) × (is_directory h ≡ folder)
unfolding has_entry has_path any
entry_of_path p folder [] e = cc
entry_of_path p folder (x ∷ es) e =
    elim (Bool-cases (same x.path p && same_kind (is_directory x.hash) folder)) [
      | inl hit ↦ (x.hash, ground (arith, same_refl x.hash), ground arith)
      | inr miss ↦
          let (h, found, kind) = entry_of_path p folder es (ground arith) in (h, ground arith, kind)
    ]
