-- ===== src/SyncManager/Tests.antt =====
-- A registry `hub`, and the stamps as numbers.
use drone_db.Base.{ℕ, ◌≡◌, refl, true, false, none, is_some, List, Text, bytes}
use drone_db.SyncManager.{SyncFile, stamps, stamp_of, get_last_stamp}
use drone_db.SyncManager.Stamps.{get_last_stamp_ends}

abbrev hub : Text
hub = bytes "hub"

get_last_stamp_ends_example :
    ((f : SyncFile ℕ) → is_some (get_last_stamp true 9 2 hub f) ≡ true)
    × ((l : List (Text × ℕ)) (fuel : ℕ)
        → stamp_of hub l ≡ none
        → get_last_stamp false 9 fuel hub (stamps l) ≡ none)
get_last_stamp_ends_example = get_last_stamp_ends hub 9 refl
