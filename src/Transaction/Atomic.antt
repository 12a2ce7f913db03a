-- ===== src/Transaction/Atomic.antt =====
-- A transaction block writes all or nothing, and ends the transaction it began.
use drone_db.Base.{
  ◌≡◌, refl, sym, subst, ◌⊎◌, inl, inr, true, false, none, some, arith, Error, Result, ok, err,
  db_error,
}
use drone_db.Transaction.{
  Connection, Transaction, Fault, destroy, commit, rollback, move_construct, committing,
  in_transaction,
}

abbrev at_rest : {S : Type 0} → S → Connection S
at_rest s = record { committed = s; working = none }

abbrev begun : Transaction
begun = record { attached = true; finished = false }

module _ {S A : Type 0} where
  -- The end of a block, from what its body returned.
  committing_lem :
      (s w : S) (r : Result A) (fault : Fault)
      → let (out, c') = committing r begun fault (record { committed = s; working = some w }) in
        (c'.working ≡ none)
        × (((a : A) × (out ≡ ok a) × (r ≡ ok a) × (w ≡ c'.committed))
            ⊎ ((e : Error) × (out ≡ err e) × (c'.committed ≡ s)))
  unfolding committing
  committing_lem s w (err e) fault = (refl, inr (e, refl, refl))
  committing_lem s w (ok a) (some e) = (refl, inr (e, refl, refl))
  committing_lem s w (ok a) none = (refl, inl (a, refl, refl, refl))

  -- What the block does to `c`.
  abbrev pub AllOrNothing : Fault → Fault → (S → Result A × S) → Connection S → Type 0
  AllOrNothing begin_fault commit_fault body c =
      let (r, c') = in_transaction begin_fault commit_fault body c in
      (c'.working ≡ none)
      × (((a : A) × (r ≡ ok a) × (body c.committed ≡ (ok a, c'.committed)))
          ⊎ ((e : Error) × (r ≡ err e) × (c'.committed ≡ c.committed)))

  from_rest :
      (begin_fault commit_fault : Fault) (body : S → Result A × S) (s : S)
      → AllOrNothing begin_fault commit_fault body (at_rest s)
  unfolding in_transaction
  from_rest (some e) commit_fault body s = (refl, inr (e, refl, refl))
  from_rest none commit_fault body s =
      let (ended, either) = committing_lem s (body s).1 (body s).0 commit_fault in
      (
        ended,
        elim either [
          | inl (a, out, r, w) ↦ inl (a, out, λ i. (r i, w i))
          | inr failed ↦ inr failed
        ],
      )

  -- Outside a transaction, a block ends outside one. Either it returns, and the committed state is
  -- what its body made of the former one, or it throws, and the committed state is the former one,
  -- whatever its body wrote and whether the body, BEGIN or COMMIT threw.
  pub in_transaction_atomic :
      (begin_fault commit_fault : Fault) (body : S → Result A × S) (c : Connection S)
      → c.working ≡ none
      → let (r, c') = in_transaction begin_fault commit_fault body c in
        (c'.working ≡ none)
        × (((a : A) × (r ≡ ok a) × (body c.committed ≡ (ok a, c'.committed)))
            ⊎ ((e : Error) × (r ≡ err e) × (c'.committed ≡ c.committed)))
  in_transaction_atomic begin_fault commit_fault body c e =
      subst
        (λ w.
          AllOrNothing begin_fault commit_fault body
            (record { committed = c.committed; working = w }))
        (sym e) (from_rest begin_fault commit_fault body c.committed)

module _ {S : Type 0} (t : Transaction) where
  commit_finishes :
      (fault : Fault) (c : Connection S)
      → (commit t fault c).0 ≡ ok tt
      → (commit t fault c).1.finished ≡ true
  unfolding commit
  commit_finishes fault c e = ground arith

  rollback_finishes :
      (c : Connection S) → (rollback t c).0 ≡ ok tt → (rollback t c).1.finished ≡ true
  unfolding rollback
  rollback_finishes c e = ground arith

  after_finish :
      (again : Fault) (c : Connection S)
      → t.finished ≡ true
      → (commit t again c ≡ (err db_error, t, c))
        × (rollback t c ≡ (err db_error, t, c))
        × (destroy t c ≡ c)
  unfolding commit rollback destroy
  after_finish again c e = (rw e, rw e, rw e)

-- A transaction ends once: after a commit or a rollback that succeeded, another of either throws a
-- database exception, and neither that nor the destructor changes the connection. What was moved
-- from does nothing.
pub finished_once :
    {S : Type 0} (t : Transaction) (fault again : Fault) (c : Connection S)
    → ((commit t fault c).0 ≡ ok tt
        → let (r, t', c') = commit t fault c in
          (commit t' again c' ≡ (err db_error, t', c'))
          × (rollback t' c' ≡ (err db_error, t', c'))
          × (destroy t' c' ≡ c'))
      × ((rollback t c).0 ≡ ok tt
          → let (r, t', c') = rollback t c in
            (commit t' again c' ≡ (err db_error, t', c')) × (destroy t' c' ≡ c'))
      × (destroy (move_construct t).1 c ≡ c)
unfolding destroy move_construct
finished_once t fault again c = (
  λ e. after_finish _ again _ (commit_finishes t fault c e),
  λ e.
      let (a, _, b) =
        after_finish (rollback t c).1 again (rollback t c).2 (rollback_finishes t c e) in
      (a, b),
  refl,
)
