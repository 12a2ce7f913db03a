-- ===== src/Move/File.antt =====
-- What a move of a file does to each path.
use drone_db.Base.{
  ℕ, ◌≡◌, refl, sym, ap, inl, inr, Bool, true, false, ◌&&◌, not, Option, none, some, List, [], ◌∷◌,
  map, arith, Text, same, same_iff, same_refl, if◌then◌else◌, Bool-cases, Result, ok, err,
  sql_error, eqb, eqb_iff, ok-injective, ◌>>=◌, >>=-returns,
}
use drone_db.Index.Table.{EntryType, Entry, Table, find_row, has_row}
use drone_db.Index.EntryTypes.{code_of, code_of-injective}
use drone_db.Index.Rows.{find_row-delete}
use drone_db.Move.{Stored, delete_entry, moved_row, replace_path, move_file, retype}

module _ (depth : Text → ℕ) where
  abbrev at_dest : Text → Option Entry → Option Entry
  at_dest dest none = none
  at_dest dest (some e) = some (record e { path = dest; depth = depth dest })

  find_row-moved_row :
      (source dest p : Text) (t : Table)
      → find_row dest t ≡ none
      → same source dest ≡ false
      → find_row p (map (moved_row depth source dest) t) ≡ (
          if same dest p
          then at_dest dest (find_row source t)
          else if same source p
          then none
          else find_row p t)
  unfolding find_row
  find_row-moved_row source dest p [] n d = ground arith
  find_row-moved_row source dest p (x ∷ t) n d = ground (
    arith,
    find_row-moved_row source dest p t,
    same_iff x.path source,
    same_iff x.path dest,
    same_iff x.path p,
    same_iff source p,
    same_iff dest p,
    same_iff source dest,
  )

abbrev cleared : Text → Stored → Stored
cleared dest s = if has_row dest s.entries then delete_entry dest s else s

find_row-cleared :
    (dest p : Text) (s : Stored)
    → find_row p (cleared dest s).entries ≡ (if same dest p then none else find_row p s.entries)
unfolding delete_entry
find_row-cleared dest p s = ground (arith, find_row-delete p dest s.entries, same_iff dest p)

abbrev with_type : EntryType → Option Entry → Option Entry
with_type type none = none
with_type type (some e) = some (record e { type = type })

find_row-retyped :
    (type : EntryType) (dest p : Text) (t : Table)
    → find_row p (map (λ (e : Entry). if same e.path dest then record e { type = type } else e) t)
      ≡ (if same dest p then with_type type (find_row p t) else find_row p t)
unfolding find_row
find_row-retyped type dest p [] = ground arith
find_row-retyped type dest p (x ∷ t) = ground (
  arith,
  find_row-retyped type dest p t,
  same_iff x.path dest,
  same_iff x.path p,
  same_iff dest p,
)

not_refused : (b : Bool) (x s' : Stored) → (if b then err sql_error else ok x) ≡ ok s' → x ≡ s'
not_refused true x s' h = cc
not_refused false x s' h = ok-injective h

replaced :
    (depth : Text → ℕ) (source dest : Text) (s s' : Stored)
    → replace_path depth source dest s ≡ ok s'
    → s'.entries ≡ map (moved_row depth source dest) s.entries
unfolding replace_path
replaced depth source dest s s' h = sym (ap (λ x. x.entries) (not_refused _ _ s' h))

find_moved :
    (depth : Text → ℕ) (e : Entry) (source dest p : Text) (s moved : Stored)
    → same source dest ≡ false
    → find_row source s.entries ≡ some e
    → replace_path depth source dest (cleared dest s) ≡ ok moved
    → find_row p moved.entries ≡ (
        if same dest p
        then some (record e { path = dest; depth = depth dest })
        else if same source p
        then none
        else find_row p s.entries)
find_moved depth e source dest p s moved d there h =
    rw (replaced depth source dest (cleared dest s) moved h) (
      ground (
        arith,
        find_row-moved_row depth source dest p (cleared dest s).entries,
        find_row-cleared dest p s,
        find_row-cleared dest dest s,
        find_row-cleared dest source s,
        same_refl dest,
        same_iff dest source,
        same_iff source dest,
      ))

find_row-retype :
    (old new : EntryType) (dest p : Text) (s : Stored)
    → find_row p (retype old new dest s).entries ≡ (
        if same dest p && not (eqb (code_of new) (code_of old))
        then with_type new (find_row p s.entries)
        else find_row p s.entries)
find_row-retype old new dest p s = ground (arith, find_row-retyped new dest p s.entries)

-- The row that a moved file has.
abbrev pub file_row : (Text → ℕ) → Text → EntryType → Entry → Entry
file_row depth dest type e = record e { path = dest; depth = depth dest; type = type }

module _ (depth : Text → ℕ) (extension : Text → Text) (fingerprint : Text → Result EntryType)
    (like : Text → Text → Bool) (missing_folders : Table → List Text) (now : ℕ) where
  same_type :
      (type : EntryType) (e : Entry) (dest p : Text) (moved : Stored) (before : Option Entry)
      → find_row p moved.entries
        ≡ (if same dest p then some (record e { path = dest; depth = depth dest }) else before)
      → find_row p (retype e.type type dest moved).entries
        ≡ (if same dest p then some (file_row depth dest type e) else before)
  same_type type e dest p moved before h = elim (Bool-cases (eqb (code_of type) (code_of e.type))) [
    | inl t ↦
        let type_is : type ≡ e.type = code_of-injective type e.type ((eqb_iff _ _).0 t) in
        rw type_is (ground (arith, h))
    | inr f ↦ ground (arith, h, find_row-retype e.type type dest p moved)
  ]

  moved_as :
      (e : Entry) (source dest : Text) (s s' moved : Stored) (b : Bool)
      → ((p : Text)
          → find_row p moved.entries ≡ (
              if same dest p
              then some (record e { path = dest; depth = depth dest })
              else if same source p
              then none
              else find_row p s.entries))
      → (if b then ok moved else fingerprint dest >>= (λ type. ok (retype e.type type dest moved)))
        ≡ ok s'
      → (type : EntryType) × (if b then type ≡ e.type else fingerprint dest ≡ ok type)
        × ((p : Text)
            → find_row p s'.entries ≡ (
                if same dest p
                then some (file_row depth dest type e)
                else if same source p
                then none
                else find_row p s.entries))
  moved_as e source dest s s' moved true f h = (e.type, refl, λ p. rw (← ok-injective h) (f p))
  moved_as e source dest s s' moved false f h =
      let (type, ht, h2) = >>=-returns (fingerprint dest) _ h in
      (type, ht, λ p. rw (← ok-injective h2) (same_type type e dest p moved _ (f p)))

  -- After a move of a file to another path, which did not throw, the destination has the file's row with its new path and depth, and a
  -- type that is the former one where the extension stays, and otherwise the fingerprint's; the
  -- source has no row, and the other paths keep theirs.
  pub moved_file :
      (e : Entry) (source dest : Text) (s s' : Stored)
      → same source dest ≡ false
      → find_row source s.entries ≡ some e
      → move_file depth extension fingerprint like missing_folders now e source dest s ≡ ok s'
      → (type : EntryType) × (if same (extension source) (extension dest)
          then type ≡ e.type
          else fingerprint dest ≡ ok type)
        × ((p : Text)
            → find_row p s'.entries ≡ (
                if same dest p
                then some (file_row depth dest type e)
                else if same source p
                then none
                else find_row p s.entries))
  unfolding move_file
  moved_file e source dest s s' d there h =
      let (moved, hm, h1) = >>=-returns (replace_path depth source dest (cleared dest s)) _ h in
      moved_as e source dest s s' moved (same (extension source) (extension dest))
        (λ p. find_moved depth e source dest p s moved d there hm) h1
