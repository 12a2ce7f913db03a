-- ===== src/AuthManager.antt =====
-- library/authmanager.cpp: `AuthManager`, the credentials by registry, in memory and in a file. The
-- objects of the JSON text are lists; base64 is that of the vendored library.
pub mod Saved
mod Tests
use drone_db.Base.{
  ℕ, Bool, true, false, not, Option, none, some, is_some, List, [], ◌∷◌, ◌++◌, map, Text, same,
  bytes, eqb, keep, if◌then◌else◌,
}
use drone_db.Meta.{is_blank}
use drone_db.SyncManager.{SyncFile, missing, malformed, stamps, stamp_of, put_stamp}

pub record AuthCredentials : Type 0 where
  pub username : Text
  pub password : Text

-- What is in memory, and the file; `malformed` stands for a file without the object `auths`, too.
pub record Store : Type 0 where
  pub auths : List (Text × Text)
  pub file : SyncFile Text

abbrev pub no_credentials : AuthCredentials
no_credentials = record { username = []; password = [] }

-- What is before and after the last colon.
abbrev pub before_colon : ℕ → Text → Option (Text × Text) → Option (Text × Text)
before_colon c s (some (l, r)) = some (c ∷ l, r)
before_colon c s none = if eqb c b':' then some ([], s) else none

unfoldable pub last_colon : Text → Option (Text × Text)
last_colon [] = none
last_colon (c ∷ s) = before_colon c s (last_colon s)

-- Without a colon, `npos + 1` is 0.
abbrev pub credentials_of : Text → Option (Text × Text) → AuthCredentials
credentials_of s none = record { username = s; password = s }
credentials_of s (some (l, r)) =
    if is_blank l then no_credentials else record { username = l; password = r }

-- `writable` says whether the file can be written.
unfoldable pub construct : Bool → SyncFile Text → Store
construct writable (stamps l) = record { auths = l; file = stamps l }
construct writable f = record { auths = []; file = if writable then stamps [] else f }

module _ (encode decode : Text → Text) where
  unfoldable pub save_credentials : Bool → Text → AuthCredentials → Store → Store
  unfolding put_stamp
  save_credentials writable url creds s =
      let auths = put_stamp url (encode (creds.username ++ bytes ":" ++ creds.password)) s.auths in
      record { auths = auths; file = if writable then stamps auths else s.file }

  abbrev pub loaded : Option Text → AuthCredentials
  loaded none = no_credentials
  loaded (some auth) = credentials_of (decode auth) (last_colon (decode auth))

  unfoldable pub load_credentials : Text → Store → AuthCredentials
  unfolding stamp_of last_colon
  load_credentials url s = loaded (stamp_of url s.auths)

unfoldable pub delete_credentials : Bool → Text → Store → Bool × Store
unfolding stamp_of
delete_credentials writable url s =
    let auths = keep (λ (x : Text × Text). not (same x.0 url)) s.auths in
    if is_some (stamp_of url s.auths)
    then (true, record { auths = auths; file = if writable then stamps auths else s.file })
    else (false, s)

unfoldable pub get_authenticated_registry_urls : Store → List Text
get_authenticated_registry_urls s = map (λ (x : Text × Text). x.0) s.auths
