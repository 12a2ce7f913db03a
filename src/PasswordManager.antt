-- ===== src/PasswordManager.antt =====
-- library/passwordmanager.cpp: `PasswordManager` over the table passwords, whose rows are a salt and a
-- hash. SHA-256 is an argument, as is the salt that is drawn.
pub mod Verified
mod Tests
use drone_db.Base.{
  ℕ, Bool, true, false, ◌&&◌, ◌||◌, Option, none, some, List, [], ◌∷◌, ◌++◌, Text, same, eqb, any,
  length, if◌then◌else◌, Result, ok, err,
}
use drone_db.Meta.{is_blank}
use drone_db.Transaction.{Connection, Fault, in_transaction}

abbrev pub Passwords : Type 0
Passwords = List (Text × Text)

-- A statement that may fail.
abbrev pub executed : Fault → Passwords → Passwords → Result (Unit {0}) × Passwords
executed none after before = (ok tt, after)
executed (some e) after before = (err e, before)

unfoldable pub count_passwords : Passwords → ℕ
count_passwords rows = length rows

module _ (sha256 : Text → Text) where
  unfoldable pub append :
      Fault
      → Fault
      → Fault
      → Text
      → Text
      → Connection Passwords
      → Result (Unit {0}) × Connection Passwords
  unfolding in_transaction
  append begin_fault fault commit_fault salt password c =
      if is_blank password
      then (ok tt, c)
      else in_transaction begin_fault commit_fault
          (λ rows. executed fault (rows ++ (salt, sha256 (salt ++ password)) ∷ []) rows) c

  abbrev pub matches : Text → Text × Text → Bool
  matches password row = same row.1 (sha256 (row.0 ++ password))

  unfoldable pub verify : Text → Passwords → Bool
  unfolding count_passwords
  verify password rows =
      if is_blank password && eqb (count_passwords rows) 0
      then true
      else any (matches password) rows

-- The statement runs once before the transaction, and once in it.
abbrev pub then_again :
    Fault
    → Fault
    → Fault
    → Result (Unit {0}) × Connection Passwords
    → Result (Unit {0}) × Connection Passwords
then_again begin_fault fault commit_fault (err e, c) = (err e, c)
then_again begin_fault fault commit_fault (ok _, c) =
    in_transaction begin_fault commit_fault (executed fault []) c

abbrev pub outside : Fault → Connection Passwords → Result (Unit {0}) × Connection Passwords
outside none c = (ok tt, record c { committed = [] })
outside (some e) c = (err e, c)

unfoldable pub clear_all :
    Fault → Fault → Fault → Fault → Connection Passwords → Result (Unit {0}) × Connection Passwords
unfolding in_transaction
clear_all first_fault begin_fault fault commit_fault c =
    then_again begin_fault fault commit_fault (outside first_fault c)
