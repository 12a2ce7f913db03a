-- ===== src/AuthManager/Tests.antt =====
-- Base64 is left out: a text is its own code.
use drone_db.Base.{◌≡◌, refl, true, false, Text, same, bytes, all}
use drone_db.SyncManager.{missing}
use drone_db.AuthManager.{AuthCredentials, Store, construct, save_credentials, load_credentials}
use drone_db.AuthManager.Saved.{save_then_load}

abbrev plain : Text → Text
plain s = s

abbrev ann : AuthCredentials
ann = record { username = bytes "ann"; password = bytes "pw" }

abbrev before : Store
before = construct true missing

abbrev after : Store
after = save_credentials plain plain true (bytes "hub") ann before

save_then_load_example :
    (load_credentials plain plain (bytes "hub") after ≡ ann)
    × (load_credentials plain plain (bytes "hub") (construct false after.file) ≡ ann)
    × ((other : Text)
        → same (bytes "hub") other ≡ false
        → load_credentials plain plain other after ≡ load_credentials plain plain other before)
unfolding all
save_then_load_example =
    save_then_load plain plain (λ s. refl) (bytes "hub") ann before false refl refl

-- A password with a colon comes back in part.
colon_is_lost :
    load_credentials plain plain (bytes "hub") (
      save_credentials plain plain true
        (bytes "hub")
        (record { username = bytes "ann"; password = bytes "p:w" })
        before)
    ≡ record { username = bytes "ann:p"; password = bytes "w" }
unfolding load_credentials save_credentials construct same
colon_is_lost = refl
