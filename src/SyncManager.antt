-- ===== src/SyncManager.antt =====
-- library/syncmanager.cpp: `SyncManager`, the file of the last stamps by registry. The file of the
-- object is a list; a write fails silently where the file cannot be written, as a stream does.
pub mod Stamps
mod Tests
use drone_db.Base.{
  ℕ, zero, suc, Bool, true, false, not, Option, none, some, is_some, List, [], ◌∷◌, Text, same,
  if◌then◌else◌, Result, ok, err, invalid_args, json_error,
}
use drone_db.Meta.{is_blank}

-- `malformed` is a file that is not a JSON object.
pub data SyncFile (S : Type 0) : Type 0 where
  missing malformed : SyncFile S
  stamps : List (Text × S) → SyncFile S

module _ {S : Type 0} where
  unfoldable pub stamp_of : Text → List (Text × S) → Option S
  stamp_of registry [] = none
  stamp_of registry ((r, s) ∷ rest) =
      let later = stamp_of registry rest in if same r registry then some s else later

  -- `j[registry] = stamp`
  unfoldable pub put_stamp : Text → S → List (Text × S) → List (Text × S)
  put_stamp registry stamp [] = (registry, stamp) ∷ []
  put_stamp registry stamp ((r, s) ∷ rest) =
      let later = put_stamp registry stamp rest in
      if same r registry then (r, stamp) ∷ rest else (r, s) ∷ later

  module _ (writable : Bool) where
    -- An empty object is written where there is no file.
    abbrev pub created : SyncFile S → SyncFile S
    created missing = if writable then stamps [] else missing
    created f = f

    abbrev pub written : Text → S → SyncFile S → Result (Unit {0}) × SyncFile S
    written registry stamp (stamps l) =
        (ok tt, if writable then stamps (put_stamp registry stamp l) else stamps l)
    written registry stamp f = (err json_error, f)

    unfoldable pub set_last_stamp : Text → S → SyncFile S → Result (Unit {0}) × SyncFile S
    unfolding put_stamp
    set_last_stamp registry stamp f =
        if is_blank registry then (err invalid_args, f) else written registry stamp (created f)

    -- `own` is the stamp of the database itself. The function calls itself after it has set a stamp;
    -- none where the fuel does not last.
    module _ (own : S) where
      abbrev pub then_again :
          Result (Unit {0}) × SyncFile S
          → (SyncFile S → Option (Result S × SyncFile S))
          → Option (Result S × SyncFile S)
      then_again (err e, f) again = some (err e, f)
      then_again (ok _, f) again = again f

      abbrev pub answer :
          Text
          → List (Text × S)
          → (SyncFile S → Option (Result S × SyncFile S))
          → Option S
          → Option (Result S × SyncFile S)
      answer registry l again none = then_again (set_last_stamp registry own (stamps l)) again
      answer registry l again (some s) = some (ok s, stamps l)

      abbrev pub read_stamp :
          Text
          → SyncFile S
          → (SyncFile S → Option (Result S × SyncFile S))
          → Option (Result S × SyncFile S)
      read_stamp registry (stamps l) again = answer registry l again (stamp_of registry l)
      read_stamp registry f again = some (err json_error, f)

      unfoldable pub get_last_stamp : ℕ → Text → SyncFile S → Option (Result S × SyncFile S)
      unfolding stamp_of set_last_stamp
      get_last_stamp zero registry f = none
      get_last_stamp (suc fuel) registry f =
          if is_blank registry
          then some (err invalid_args, f)
          else read_stamp registry (created f) (get_last_stamp fuel registry)
