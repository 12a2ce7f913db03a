-- ===== src/Meta/Rows.antt =====
-- Rows that are deleted, and rows that are kept.
use drone_db.Base.{◌+◌, ◌≡◌, refl, Bool, not, List, [], ◌∷◌, ◌++◌, arith, keep, length, ok}
use drone_db.Meta.{MetaRow, delete_where, insert_row}

module _ (q : MetaRow → Bool) where
  pub keep-append : (xs ys : List MetaRow) → keep q (xs ++ ys) ≡ keep q xs ++ keep q ys
  unfolding keep
  keep-append [] ys = refl
  keep-append (x ∷ xs) ys = ground (arith, keep-append xs ys)

  pub keep-delete_where : (xs : List MetaRow) → keep q (delete_where q xs) ≡ []
  unfolding keep delete_where
  keep-delete_where [] = refl
  keep-delete_where (x ∷ xs) = ground (arith, keep-delete_where xs)

  pub length-delete_where :
      (xs : List MetaRow) → length xs ≡ length (keep q xs) + length (delete_where q xs)
  unfolding keep delete_where
  length-delete_where [] = omega arith
  length-delete_where (x ∷ xs) = ground (arith, length-delete_where xs)

  pub delete_where_again :
      (xs : List MetaRow) → delete_where q (delete_where q xs) ≡ delete_where q xs
  unfolding keep delete_where
  delete_where_again [] = refl
  delete_where_again (x ∷ xs) = ground (arith, delete_where_again xs)

pub delete_where-append :
    (q : MetaRow → Bool) (xs ys : List MetaRow)
    → delete_where q (xs ++ ys) ≡ delete_where q xs ++ delete_where q ys
unfolding delete_where
delete_where-append q xs ys = keep-append (λ r. not (q r)) xs ys

pub insert_row_lem :
    (r : MetaRow) (xs ys : List MetaRow) → insert_row r xs ≡ ok ys → ys ≡ xs ++ r ∷ []
unfolding insert_row
insert_row_lem r xs ys h = ground arith
