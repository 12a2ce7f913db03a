-- ===== src/Sync/Rows.antt =====
-- A loop over the rows of a table that changes the row it passes.
use drone_db.Base.{
  ◌≡◌, refl, ap, ◌∙◌, Bool, Option, none, some, [], ◌∷◌, arith, Text, same, same_iff, same_refl,
  keep, if◌then◌else◌, Bool-cases, inl, inr,
}
use drone_db.Index.Table.{Entry, Table, find_row, HasUniqueRows}

-- The loop passes `rows` and makes of the table `t` the table `t'`; a row that `t` still has when it
-- is passed becomes `new` of it.
pub data Passes (new : Entry → Option Entry) : Table → Table → Table → Type 0 where
  done : {t : Table} → Passes new [] t t
  pass :
      {row : Entry} {rows t t1 t' : Table}
      → (find_row row.path t ≡ some row
          → (p : Text) → find_row p t1 ≡ (if same row.path p then new row else find_row p t))
      → Passes new rows t1 t'
      → Passes new (row ∷ rows) t t'

abbrev pub HasRows : Table → Table → Type 0
HasRows rows t = (p : Text) (row : Entry) → find_row p rows ≡ some row → find_row p t ≡ some row

-- what a path has once `rows` are passed
abbrev pub passed : (Entry → Option Entry) → Option Entry → Option Entry → Option Entry
passed new none before = before
passed new (some row) before = new row

pub Passes_lem :
    (new : Entry → Option Entry) (rows t t' : Table) (p : Text)
    → HasUniqueRows rows
    → HasRows rows t
    → Passes new rows t t'
    → find_row p t' ≡ passed new (find_row p rows) (find_row p t)
unfolding find_row
Passes_lem new [] t t' p u h done = refl
Passes_lem new (row ∷ rows) t t' p u h (pass {t1 = t1} step rest) =
    let here = h row.path row (ground (arith, same_refl row.path)) in
    let still : HasRows rows t1 =
      λ q r e. ground (arith, e, step here q, h q r, u.0, same_iff row.path q) in
    let after = Passes_lem new rows t1 t' p u.1 still rest in
    elim (Bool-cases (same row.path p)) [
      | inl t2 ↦
          let absent : find_row p rows ≡ none = rw (← (same_iff row.path p).0 t2) u.0 in
          rw t2 (after ∙ rw absent (ground (arith, step here p)))
      | inr f2 ↦ rw f2 (after ∙ ap (passed new (find_row p rows)) (ground (arith, step here p)))
    ]

keep-absent :
    (q : Entry → Bool) (p : Text) (t : Table) → find_row p t ≡ none → find_row p (keep q t) ≡ none
unfolding find_row keep
keep-absent q p [] h = refl
keep-absent q p (e ∷ t) h = ground (arith, keep-absent q p t)

pub keep-HasUniqueRows : (q : Entry → Bool) (t : Table) → HasUniqueRows t → HasUniqueRows (keep q t)
unfolding keep
keep-HasUniqueRows q [] u = tt
keep-HasUniqueRows q (e ∷ t) u =
    ground (arith, keep-HasUniqueRows q t u.1, keep-absent q e.path t u.0)

pub find_row-keep :
    (q : Entry → Bool) (p : Text) (t : Table)
    → HasUniqueRows t
    → find_row p (keep q t)
      ≡ (elim (find_row p t) [ none ↦ none | some row ↦ if q row then some row else none ])
unfolding find_row keep
find_row-keep q p [] u = refl
find_row-keep q p (e ∷ t) u =
    ground (arith, find_row-keep q p t u.1, keep-absent q p t, same_iff e.path p)
