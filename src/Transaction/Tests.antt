-- ===== src/Transaction/Tests.antt =====
-- A block over one number: it commits, its body throws, or its COMMIT is given up.
use drone_db.Base.{ℕ, ◌+◌, ◌≡◌, refl, ◌⊎◌, none, some, Error, Result, ok, err, db_busy, fs_error}
use drone_db.Transaction.{Connection, in_transaction}
use drone_db.Transaction.Atomic.{in_transaction_atomic}

abbrev quiet : Connection ℕ
quiet = record { committed = 4; working = none }

abbrev add_three : ℕ → Result ℕ × ℕ
add_three n = (ok n, n + 3)

abbrev add_and_throw : ℕ → Result ℕ × ℕ
add_and_throw n = (err fs_error, n + 3)

in_transaction_runs :
    in_transaction none none add_three quiet ≡ (ok 4, record { committed = 7; working = none })
unfolding in_transaction
in_transaction_runs = refl

in_transaction_atomic_example :
    ((in_transaction none (some db_busy) add_three quiet).1.working ≡ none)
    × (((a : ℕ) × ((in_transaction none (some db_busy) add_three quiet).0 ≡ ok a)
          × (add_three 4
              ≡ (ok a, (in_transaction none (some db_busy) add_three quiet).1.committed)))
        ⊎ ((e : Error) × ((in_transaction none (some db_busy) add_three quiet).0 ≡ err e)
            × ((in_transaction none (some db_busy) add_three quiet).1.committed ≡ 4)))
in_transaction_atomic_example = in_transaction_atomic none (some db_busy) add_three quiet refl

in_transaction_rolls_back : in_transaction none none add_and_throw quiet ≡ (err fs_error, quiet)
unfolding in_transaction
in_transaction_rolls_back = refl
