-- ===== src/Remove/Delete.antt =====
-- What one call of `deleteFromIndex` does to the tables.
use drone_db.Base.{
  ◌≡◌, sym, ap, ◌∙◌, ◌⊎◌, inl, inr, Bool, not, none, [], ◌∷◌, map, arith, Text, same_iff, keep,
  length, if◌then◌else◌, Error, Result, ok, err, ok-injective,
}
use drone_db.Index.Table.{Entry, Table, find_row}
use drone_db.Transaction.{Connection, Fault}
use drone_db.Transaction.Atomic.{in_transaction_atomic}
use drone_db.Meta.{delete_where}
use drone_db.Move.{Stored}
use drone_db.Remove.{Deletion, pattern_of, matching, hashes_of, delete_body, delete_from_index}

module _ (like : Text → Text → Bool) where
  find_row-unmatched :
      (pattern p : Text) (t : Table)
      → find_row p (keep (λ (e : Entry). not (like pattern e.path)) t)
        ≡ (if like pattern p then none else find_row p t)
  unfolding find_row keep
  find_row-unmatched pattern p [] = ground arith
  find_row-unmatched pattern p (e ∷ t) =
      ground (arith, find_row-unmatched pattern p t, same_iff e.path p)

  -- A call either throws and leaves both tables, or removes the rows of the paths that the pattern
  -- matches and the metadata of those paths, and no other, counts the rows and tells each path.
  abbrev pub DeletesOrNot : Text → Connection Stored → Result Deletion × Connection Stored → Type 0
  DeletesOrNot pattern c (r, c') =
      (c'.working ≡ none)
      × (((e : Error) × (r ≡ err e) × (c'.committed ≡ c.committed))
          ⊎ ((d : Deletion) × (r ≡ ok d)
              × (d.count ≡ length (matching like pattern c.committed.entries))
              × (d.told ≡ map (λ (e : Entry). e.path) (matching like pattern c.committed.entries))
              × (d.hashes ≡ hashes_of (matching like pattern c.committed.entries))
              × ((p : Text)
                  → find_row p c'.committed.entries
                    ≡ (if like pattern p then none else find_row p c.committed.entries))
              × (c'.committed.metas ≡ delete_where (λ m. like pattern m.path) c.committed.metas)))

  -- Outside a transaction, `deleteFromIndex` ends outside one, and does all or nothing: it throws and
  -- leaves both tables, or it removes the row of each path that its pattern matches and of no other,
  -- and the metadata of the same paths, returns the number of rows and tells the callback their paths.
  pub delete_from_index-DeletesOrNot :
      (f g : Fault) (query : Text) (in_folder : Bool) (c : Connection Stored)
      → c.working ≡ none
      → DeletesOrNot (pattern_of query in_folder) c (delete_from_index like f g query in_folder c)
  unfolding delete_from_index
  delete_from_index-DeletesOrNot f g query in_folder c w =
      let pattern = pattern_of query in_folder in
      let (w', either) = in_transaction_atomic f g (delete_body like pattern) c w in
      (
        w',
        elim either [
          | inl (d, out, done) ↦
              let d_is = ok-injective (ap (λ x. x.0) done) in
              let s_is = ap (λ x. x.1) done in
              inr (
                d,
                out,
                ap (λ (x : Deletion). x.count) (sym d_is),
                ap (λ (x : Deletion). x.told) (sym d_is),
                ap (λ (x : Deletion). x.hashes) (sym d_is),
                (λ p.
                    ap (λ (s : Stored). find_row p s.entries) (sym s_is)
                    ∙ find_row-unmatched pattern p c.committed.entries),
                ap (λ (s : Stored). s.metas) (sym s_is),
              )
          | inr failed ↦ inl failed
        ],
      )
