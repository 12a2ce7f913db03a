-- ===== src/Index/Rows.antt =====
-- What the statements do to each path, and that they keep the paths unique.
use drone_db.Base.{
  ◌≡◌, refl, ◌&&◌, none, some, [], ◌∷◌, ◌++◌, arith, Text, same, same_iff, if◌then◌else◌, ok,
}
use drone_db.Index.Table.{
  Entry, Table, find_row, do_update, insert_row, delete_row, has_row, HasUniqueRows,
}

pub find_row-do_update :
    (p : Text) (e : Entry) (t : Table)
    → find_row p (do_update e t) ≡ (if same e.path p && has_row p t then some e else find_row p t)
unfolding find_row do_update
find_row-do_update p e [] = ground arith
find_row-do_update p e (x ∷ t) =
    ground (
      arith,
      find_row-do_update p e t,
      same_iff x.path e.path,
      same_iff x.path p,
      same_iff e.path p,
    )

find_row-snoc :
    (p : Text) (e : Entry) (t : Table)
    → find_row p (t ++ e ∷ [])
      ≡ (if has_row p t then find_row p t else if same e.path p then some e else none)
unfolding find_row
find_row-snoc p e [] = refl
find_row-snoc p e (x ∷ t) = ground (arith, find_row-snoc p e t)

-- A row of a new path goes in, and the other paths keep theirs.
pub insert_row_new :
    (e : Entry) (t : Table) → find_row e.path t ≡ none → insert_row e t ≡ ok (t ++ e ∷ [])
unfolding insert_row
insert_row_new e t h = ground arith

pub find_row-insert_new :
    (p : Text) (e : Entry) (t : Table)
    → find_row e.path t ≡ none
    → find_row p (t ++ e ∷ []) ≡ (if same e.path p then some e else find_row p t)
find_row-insert_new p e t h = ground (arith, find_row-snoc p e t, same_iff e.path p)

pub find_row-delete :
    (p q : Text) (t : Table)
    → find_row p (delete_row q t) ≡ (if same q p then none else find_row p t)
unfolding find_row delete_row
find_row-delete p q [] = ground arith
find_row-delete p q (x ∷ t) =
    ground (arith, find_row-delete p q t, same_iff x.path q, same_iff x.path p, same_iff q p)

-- The row that is found has the path that was asked for.
pub path-find_row : (p : Text) (t : Table) (e : Entry) → find_row p t ≡ some e → e.path ≡ p
unfolding find_row
path-find_row p [] e h = cc
path-find_row p (x ∷ t) e h = ground (arith, path-find_row p t e, same_iff x.path p)

pub delete-HasUniqueRows : (p : Text) (t : Table) → HasUniqueRows t → HasUniqueRows (delete_row p t)
unfolding delete_row
delete-HasUniqueRows p [] h = tt
delete-HasUniqueRows p (x ∷ t) h =
    ground (arith, delete-HasUniqueRows p t h.1, find_row-delete x.path p t)
