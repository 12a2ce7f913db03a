-- ===== src/AuthManager/Saved.antt =====
-- Credentials that are saved and read.
use drone_db.Base.{
  Bool, ◌≡◌, refl, ap, ◌∙◌, true, false, not, none, some, [], ◌∷◌, ◌++◌, Text, same, same_refl,
  bytes, eqb, all, arith,
}
use drone_db.Meta.{is_blank}
use drone_db.SyncManager.{stamp_of, put_stamp}
use drone_db.SyncManager.Stamps.{stamp_of-put_stamp}
use drone_db.AuthManager.{
  AuthCredentials, Store, last_colon, loaded, construct, save_credentials, load_credentials,
}

abbrev HasNoColon : Text → Type 0
HasNoColon s = all (λ c. not (eqb c b':')) s ≡ true

no_last_colon : (s : Text) → HasNoColon s → last_colon s ≡ none
unfolding last_colon all
no_last_colon [] h = refl
no_last_colon (c ∷ s) h =
    let other : eqb c 58 ≡ false = ground arith in rw (no_last_colon s (ground arith), other) refl

last_colon-append : (l r : Text) → HasNoColon r → last_colon (l ++ bytes ":" ++ r) ≡ some (l, r)
unfolding last_colon
last_colon-append [] r h = rw (no_last_colon r h) refl
last_colon-append (c ∷ l) r h = rw (last_colon-append l r h) refl

module _ (encode decode : Text → Text) (decoded : (s : Text) → decode (encode s) ≡ s) where
  loaded_pair :
      (creds : AuthCredentials)
      → is_blank creds.username ≡ false
      → HasNoColon creds.password
      → loaded encode decode (some (encode (creds.username ++ bytes ":" ++ creds.password))) ≡ creds
  loaded_pair creds named plain =
      rw
        (
          decoded (creds.username ++ bytes ":" ++ creds.password),
          last_colon-append creds.username creds.password plain,
          named,
        )
        refl

  -- Where base64 decodes what it encodes and the file can be written, credentials that are saved for a
  -- registry, with a user name and without a colon in the password, are those that are loaded for it,
  -- also by a manager that reads the file afterwards. What is loaded for another registry stays as it
  -- was.
  pub save_then_load :
      (url : Text) (creds : AuthCredentials) (s : Store) (writable : Bool)
      → is_blank creds.username ≡ false
      → HasNoColon creds.password
      → let s' = save_credentials encode decode true url creds s in
        (load_credentials encode decode url s' ≡ creds)
        × (load_credentials encode decode url (construct writable s'.file) ≡ creds)
        × ((other : Text)
            → same url other ≡ false
            → load_credentials encode decode other s' ≡ load_credentials encode decode other s)
  unfolding save_credentials load_credentials construct
  save_then_load url creds s writable named plain =
      let auth = encode (creds.username ++ bytes ":" ++ creds.password) in
      let own : loaded encode decode (stamp_of url (put_stamp url auth s.auths)) ≡ creds =
        rw (stamp_of-put_stamp url url auth s.auths, same_refl url)
          (loaded_pair creds named plain) in
      (
        own,
        own,
        λ other h.
            ap (loaded encode decode) (stamp_of-put_stamp url other auth s.auths ∙ rw h refl),
      )
