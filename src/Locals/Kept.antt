-- ===== src/Locals/Kept.antt =====
-- What `place` leaves of the names that were there, and of the files of the index.
use drone_db.Base.{
  ◌∙◌, arith, ◌≡◌, refl, Bool, true, false, Option, none, some, List, [], ◌∷◌, Text, same, if_split,
  All, eqb, if◌then◌else◌, Result, ok, err, fs_error, Step,
}
use drone_db.Index.Table.{Entry, Table}
use drone_db.Delta.{AddAction}
use drone_db.Meta.{is_blank}
use drone_db.Mio.{Tree}
use drone_db.Build.Output.{below}
use drone_db.Locals.{row_of_hash, by_hash, row_valid, is_valid, placed, place}
use drone_db.Locals.Placed.{IsApart, IsSame, HasContent, FileLaws, Passes, placed-IsPut}

-- The adds go to different paths.
abbrev pub AreDistinct : List AddAction → Type 0
AreDistinct [] = Unit
AreDistinct (a ∷ as') = All (λ (b : AddAction). same b.path a.path ≡ false) as' × AreDistinct as'

same-below : (d p q : Text) → same (below d p) (below d q) ≡ same p q
unfolding same
same-below [] p q = ground arith
same-below (c ∷ d) p q = ground (arith, same-below d p q)

module _ {T : Type 0} (tree : Tree T) (hardlink copy_file : Text → Text → T → Bool × T)
    (remove : Text → T → Bool × T) (sha256 : T → Text → Result Text) (parent_path : Text → Text)
    (root destination : Text) (table : Table) where
  abbrev valid_row : T → Text → Option Entry → Result Bool
  valid_row = row_valid tree hardlink copy_file remove sha256 parent_path root destination table

  abbrev valid : T → Text → Result Bool
  valid = is_valid tree hardlink copy_file remove sha256 parent_path root destination table

  abbrev placing : List AddAction → AddAction → Step T
  placing = place tree hardlink copy_file remove sha256 parent_path root destination table

  -- The file of the row is not in the folder of the new files, nor one of the folders around it.
  abbrev pub HasApart : Entry → Type 0
  HasApart e = IsApart tree sha256 destination (below root e.path)

  abbrev IsApartRow : Option Entry → Type 0
  IsApartRow none = Unit
  IsApartRow (some e) = HasApart e

  row_of_hash-IsApartRow :
      (hash : Text) (t : Table) → All HasApart t → IsApartRow (row_of_hash hash t)
  row_of_hash-IsApartRow hash [] a = tt
  row_of_hash-IsApartRow hash (e ∷ t) a =
      if_split IsApartRow (same e.hash hash) a.0 (row_of_hash-IsApartRow hash t a.1)

  row_valid-same :
      (hash : Text) (row : Option Entry) (t t' : T)
      → IsApartRow row
      → ((r : Text) → IsApart tree sha256 destination r → IsSame tree sha256 destination r t t')
      → valid_row t' hash row ≡ valid_row t hash row
  row_valid-same hash none t t' a s = refl
  row_valid-same hash (some e) t t' a s =
      let (time, content) = s (below root e.path) a in
      λ i. elim (time i) [
        | none ↦ err fs_error
        | some m ↦
            if eqb m e.mtime
            then ok true
            else by_hash tree hardlink copy_file remove sha256 parent_path root destination table
                hash (content i)
      ]

  -- The file has the content that the row's has in `t`.
  abbrev pub HasCopy : Option Entry → T → Text → T → Type 0
  HasCopy none t p t' = ⊥
  HasCopy (some e) t p t' = HasContent tree sha256 destination (sha256 t (below root e.path)) p t'

  HasCopy-before :
      (row : Option Entry) (t t1 : T) (p : Text) (t' : T)
      → IsApartRow row
      → ((r : Text) → IsApart tree sha256 destination r → IsSame tree sha256 destination r t t1)
      → HasCopy row t1 p t'
      → HasCopy row t p t'
  HasCopy-before none t t1 p t' a s h = h
  HasCopy-before (some e) t t1 p t' a s (there, content) =
      (there, content ∙ (s (below root e.path) a).1)

  module _ (laws : FileLaws tree sha256 destination hardlink copy_file remove parent_path)
      (named : is_blank destination ≡ false) (index : All HasApart table) where
    abbrev row_of : Text → Option Entry
    row_of hash = row_of_hash hash table

    row-HasCopy :
        (adds : List AddAction) (a : AddAction) (t : T) (row : Option Entry)
        → IsApartRow row
        → valid_row t a.hash row ≡ ok true
        → let out =
            placed tree hardlink copy_file remove sha256 parent_path root destination table adds a
              row t in
          (out.0 ≡ ok tt → HasCopy row t (below destination a.path) out.1)
          × Passes tree sha256 destination a.path t out.1
    row-HasCopy adds a t none p v = cc
    row-HasCopy adds a t (some e) p v =
        placed-IsPut tree hardlink copy_file remove sha256 parent_path root destination table laws
          adds a e t named p

    pub place-HasCopy :
        (adds : List AddAction) (a : AddAction) (t : T)
        → valid t a.hash ≡ ok true
        → ((placing adds a t).0 ≡ ok tt
            → HasCopy (row_of a.hash) t (below destination a.path) (placing adds a t).1)
          × Passes tree sha256 destination a.path t (placing adds a t).1
    unfolding place is_valid
    place-HasCopy adds a t v =
        row-HasCopy adds a t (row_of a.hash) (row_of_hash-IsApartRow a.hash table index) v

    pub place-keeps :
        (adds : List AddAction) (a : AddAction) (p : Text) (content : Result Text) (t : T)
        → valid t a.hash ≡ ok true
        → same a.path p ≡ false
        → HasContent tree sha256 destination content (below destination p) t
        → HasContent tree sha256 destination content (below destination p) (placing adds a t).1
    place-keeps adds a p content t v d h =
        (place-HasCopy adds a t v).1.others (below destination p) content
          (same-below destination a.path p ∙ d) h

    pub place-before :
        (adds : List AddAction) (a : AddAction) (hash p : Text) (t t' : T)
        → valid t a.hash ≡ ok true
        → HasCopy (row_of hash) (placing adds a t).1 p t'
        → HasCopy (row_of hash) t p t'
    place-before adds a hash p t t' v =
        HasCopy-before (row_of hash) t (placing adds a t).1 p t'
          (row_of_hash-IsApartRow hash table index) (place-HasCopy adds a t v).1.apart

    pub place-leaves_index :
        (adds : List AddAction) (a : AddAction) (t : T) (hash : Text)
        → valid t a.hash ≡ ok true
        → valid (placing adds a t).1 hash ≡ valid t hash
    unfolding is_valid
    place-leaves_index adds a t hash v =
        row_valid-same hash (row_of hash) t (placing adds a t).1
          (row_of_hash-IsApartRow hash table index) (place-HasCopy adds a t v).1.apart

  pub copied_row :
      (row : Option Entry) (t : T) (p : Text) (t' : T)
      → HasCopy row t p t'
      → (e : Entry) × (row ≡ some e)
        × HasContent tree sha256 destination (sha256 t (below root e.path)) p t'
  copied_row none t p t' h = absurd h
  copied_row (some e) t p t' h = (e, refl, h)
