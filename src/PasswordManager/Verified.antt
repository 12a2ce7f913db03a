-- ===== src/PasswordManager/Verified.antt =====
-- Which passwords are accepted.
use drone_db.Base.{
  ◌≡◌, refl, sym, ap, ◌∙◌, inl, inr, true, false, ◌||◌, none, some, [], ◌∷◌, ◌++◌, Text, same,
  same_refl, eqb, any, any-append, length, length-append, arith, Result, ok,
}
use drone_db.Meta.{is_blank}
use drone_db.Transaction.{Connection, Fault, in_transaction}
use drone_db.Transaction.Atomic.{in_transaction_atomic}
use drone_db.PasswordManager.{Passwords, executed, append, matches, verify, count_passwords}

module _ (sha256 : Text → Text) where
  verify-append :
      (q salt hash : Text) (rows : Passwords)
      → verify sha256 q (rows ++ (salt, hash) ∷ [])
        ≡ (same hash (sha256 (salt ++ q)) || any (matches sha256 q) rows)
  unfolding verify count_passwords any
  verify-append q salt hash rows =
      let some_row : eqb (length (rows ++ (salt, hash) ∷ [])) 0 ≡ false =
        ground (arith, length-append rows ((salt, hash) ∷ [])) in
      ground (arith, some_row, any-append (matches sha256 q) rows ((salt, hash) ∷ []))

  executed-ok :
      (fault : Fault) (after before rows : Passwords) (x : Unit {0})
      → executed fault after before ≡ (ok x, rows)
      → rows ≡ after
  executed-ok none after before rows x h = sym (ap (λ (p : Result (Unit {0}) × Passwords). p.1) h)
  executed-ok (some e) after before rows x h = cc

  module _ (begin_fault fault commit_fault : Fault) (salt password : Text)
      (c : Connection Passwords) (given : is_blank password ≡ false) where
    abbrev insertion : Passwords → Result (Unit {0}) × Passwords
    insertion rows = executed fault (rows ++ (salt, sha256 (salt ++ password)) ∷ []) rows

    append-in_transaction :
        append sha256 begin_fault fault commit_fault salt password c
        ≡ in_transaction begin_fault commit_fault insertion c
    unfolding append
    append-in_transaction = rw given refl

    inserted :
        c.working ≡ none
        → (in_transaction begin_fault commit_fault insertion c).0 ≡ ok tt
        → (in_transaction begin_fault commit_fault insertion c).1.committed
          ≡ c.committed ++ (salt, sha256 (salt ++ password)) ∷ []
    inserted rest h = elim (in_transaction_atomic begin_fault commit_fault insertion c rest).1 [
      | inl (a, returned, body) ↦ executed-ok fault _ _ _ a body
      | inr (e, thrown, same_rows) ↦ cc
    ]

  -- Outside a transaction, a password that is not empty and that `append` has added without an exception
  -- is accepted, and any password is accepted just if its salted hash is that of the new row or it
  -- matches a row that was there.
  pub append_then_verify :
      (begin_fault fault commit_fault : Fault) (salt password : Text) (c : Connection Passwords)
      → c.working ≡ none
      → is_blank password ≡ false
      → (append sha256 begin_fault fault commit_fault salt password c).0 ≡ ok tt
      → let rows = (append sha256 begin_fault fault commit_fault salt password c).1.committed in
        (verify sha256 password rows ≡ true)
        × ((q : Text)
            → verify sha256 q rows ≡ (
                same (sha256 (salt ++ password)) (sha256 (salt ++ q))
                || any (matches sha256 q) c.committed))
  append_then_verify begin_fault fault commit_fault salt password c rest given h =
      let in_block = append-in_transaction begin_fault fault commit_fault salt password c given in
      let rows =
        inserted begin_fault fault commit_fault salt password c given rest
          (sym (ap (λ (x : Result (Unit {0}) × Connection Passwords). x.0) in_block) ∙ h) in
      let all_rows = λ (q : Text). verify-append q salt (sha256 (salt ++ password)) c.committed in
      rw (in_block, rows)
        (all_rows password ∙ rw (same_refl (sha256 (salt ++ password))) refl, all_rows)
