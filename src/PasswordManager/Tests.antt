-- ===== src/PasswordManager/Tests.antt =====
-- The hash of a text is the text.
use drone_db.Base.{◌≡◌, refl, true, ◌||◌, none, [], ◌∷◌, ◌++◌, Text, same, bytes, any}
use drone_db.Transaction.{
  Connection, construct, exec_begin, commit, exec_commit, destroy, in_transaction,
}
use drone_db.PasswordManager.{Passwords, append, matches, verify}
use drone_db.PasswordManager.Verified.{append_then_verify}

abbrev plain : Text → Text
plain s = s

abbrev before : Connection Passwords
before = record { committed = []; working = none }

abbrev rows : Passwords
rows = (bytes "salt", bytes "saltpw") ∷ []

append_then_verify_example :
    (verify plain (bytes "pw") rows ≡ true)
    × ((q : Text)
        → verify plain q rows
          ≡ (same (bytes "saltpw") (bytes "salt" ++ q) || any (matches plain q) []))
unfolding append in_transaction construct exec_begin commit exec_commit destroy
append_then_verify_example =
    append_then_verify plain none none none (bytes "salt") (bytes "pw") before refl refl refl
