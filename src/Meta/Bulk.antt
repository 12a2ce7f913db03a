-- ===== src/Meta/Bulk.antt =====
-- What `bulkRemove` removes.
use drone_db.Base.{
  ℕ, ◌≡◌, refl, sym, ap, ◌∙◌, ◌⊎◌, inl, inr, true, not, none, List, [], ◌∷◌, arith, Text, same, any,
  keep, length, Error, ok, err,
}
use drone_db.Transaction.{Connection, Fault}
use drone_db.Transaction.Atomic.{in_transaction_atomic}
use drone_db.Meta.{MetaRow, has_id, delete_where}
use drone_db.Meta.Dump.{remove_all, bulk_remove, as_body, outcome_or}

keep_all : (rows : List MetaRow) → rows ≡ keep (λ r. true) rows
unfolding keep
keep_all [] = refl
keep_all (r ∷ rows) = ap (λ x. r ∷ x) (keep_all rows)

unlisted-delete_where :
    (i : Text) (ids : List Text) (rows : List MetaRow)
    → keep (λ r. not (any (same r.id) ids)) (delete_where (has_id i) rows)
      ≡ keep (λ r. not (any (same r.id) (i ∷ ids))) rows
unfolding keep delete_where any
unlisted-delete_where i ids [] = refl
unlisted-delete_where i ids (r ∷ rows) = ground (arith, unlisted-delete_where i ids rows)

removed_ids :
    (ids : List Text) (rows : List MetaRow)
    → remove_all ids rows ≡ ok (length ids, keep (λ r. not (any (same r.id) ids)) rows)
unfolding remove_all any
removed_ids [] rows = ap (λ x. ok (0, x)) (keep_all rows)
removed_ids (i ∷ ids) rows =
    rw (removed_ids ids (delete_where (has_id i) rows), unlisted-delete_where i ids rows)
      (ap (λ (n : ℕ). ok (n, keep (λ (r : MetaRow). not (any (same r.id) (i ∷ ids))) rows))
        (omega arith))

-- Outside a transaction, a bulk removal either removes exactly the rows whose id is listed, and returns how many ids were
-- listed, or throws and leaves the table as it was.
pub bulk_remove_exact :
    (begin_fault commit_fault : Fault) (ids : List Text) (c : Connection (List MetaRow))
    → c.working ≡ none
    → let (r, c') = bulk_remove begin_fault commit_fault ids c in
      ((r ≡ ok (length ids)) × (c'.committed ≡ keep (λ x. not (any (same x.id) ids)) c.committed))
      ⊎ ((e : Error) × (r ≡ err e) × (c'.committed ≡ c.committed))
unfolding bulk_remove
bulk_remove_exact begin_fault commit_fault ids c w =
    let (_, either) =
      in_transaction_atomic begin_fault commit_fault (as_body (remove_all ids)) c w in
    elim either [
      | inl (n, out, done) ↦
          let e = sym (ap (outcome_or c.committed) (removed_ids ids c.committed)) ∙ done in
          inl (out ∙ sym (ap (λ x. x.0) e), sym (ap (λ x. x.1) e))
      | inr failed ↦ inr failed
    ]
