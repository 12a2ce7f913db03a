-- ===== src/SyncManager/Stamps.antt =====
-- Stamps that are set and read, and whether `getLastStamp` ends.
use drone_db.Base.{
  ℕ, zero, suc, ◌≡◌, refl, sym, ap, ◌∙◌, ◌⊎◌, inl, inr, Bool, true, false, Option, none, some,
  is_some, List, [], ◌∷◌, Text, same, same_refl, same_iff, arith, if◌then◌else◌, Result, ok,
}
use drone_db.Meta.{is_blank}
use drone_db.SyncManager.{
  SyncFile, missing, malformed, stamps, stamp_of, put_stamp, created, written, set_last_stamp,
  read_stamp, get_last_stamp,
}

module _ {S : Type 0} where
  pub stamp_of-put_stamp :
      (r q : Text) (s : S) (l : List (Text × S))
      → stamp_of q (put_stamp r s l) ≡ (if same r q then some s else stamp_of q l)
  unfolding stamp_of put_stamp
  stamp_of-put_stamp r q s [] = refl
  stamp_of-put_stamp r q s ((k, t) ∷ l) =
      let rest = stamp_of-put_stamp r q s l in
      ground (arith, same_iff k r, same_iff r q, same_iff k q, rest)

  some_or_none : (x : Option S) → (x ≡ none) ⊎ ((s : S) × (x ≡ some s))
  some_or_none none = inl refl
  some_or_none (some s) = inr (s, refl)

  abbrev pub stamp_in : Text → SyncFile S → Option S
  stamp_in registry (stamps l) = stamp_of registry l
  stamp_in registry _ = none

  module _ (r : Text) (own : S) (named : is_blank r ≡ false) where
    get_of_stamps :
        (writable : Bool) (l : List (Text × S)) (fuel : ℕ)
        → get_last_stamp writable own (suc fuel) r (stamps l)
          ≡ read_stamp writable own r (stamps l) (get_last_stamp writable own fuel r)
    unfolding get_last_stamp
    get_of_stamps writable l fuel = rw named refl

    get-put :
        (writable : Bool) (s : S) (l : List (Text × S)) (fuel : ℕ)
        → get_last_stamp writable own (suc fuel) r (stamps (put_stamp r s l))
          ≡ some (ok s, stamps (put_stamp r s l))
    get-put writable s l fuel =
        get_of_stamps writable (put_stamp r s l) fuel
        ∙ rw (stamp_of-put_stamp r r s l, same_refl r) refl

    abbrev KeepsStamp : S → SyncFile S → SyncFile S → ℕ → Type 0
    KeepsStamp s f f' fuel =
        (get_last_stamp true own (suc fuel) r f' ≡ some (ok s, f'))
        × ((q : Text) → same r q ≡ false → stamp_in q f' ≡ stamp_in q f)

    put-KeepsStamp :
        (s : S) (l : List (Text × S)) (fuel : ℕ)
        → KeepsStamp s (stamps l) (stamps (put_stamp r s l)) fuel
    put-KeepsStamp s l fuel =
        (get-put true s l fuel, λ q other. rw (stamp_of-put_stamp r q s l, other) refl)

    written-KeepsStamp :
        (s : S) (f : SyncFile S) (fuel : ℕ)
        → (written true r s (created true f)).0 ≡ ok tt
        → KeepsStamp s f (written true r s (created true f)).1 fuel
    unfolding stamp_of
    written-KeepsStamp s missing fuel h = put-KeepsStamp s [] fuel
    written-KeepsStamp s malformed fuel h = cc
    written-KeepsStamp s (stamps l) fuel h = put-KeepsStamp s l fuel

    set_named :
        (s : S) (f : SyncFile S) → set_last_stamp true r s f ≡ written true r s (created true f)
    unfolding set_last_stamp
    set_named s f = rw named refl

    -- Where the file can be written and `setLastStamp` does not throw, for a registry with a name,
    -- `getLastStamp` gives that stamp and changes nothing, and the stamps of the other registries are
    -- the ones before.
    pub set_then_get_stamp :
        (s : S) (f : SyncFile S) (fuel : ℕ)
        → (set_last_stamp true r s f).0 ≡ ok tt
        → (get_last_stamp true own (suc fuel) r (set_last_stamp true r s f).1
            ≡ some (ok s, (set_last_stamp true r s f).1))
          × ((q : Text)
              → same r q ≡ false
              → stamp_in q (set_last_stamp true r s f).1 ≡ stamp_in q f)
    set_then_get_stamp s f fuel h =
        let set = set_named s f in
        rw set (
          written-KeepsStamp s f fuel
            (ap (λ (x : Result (Unit {0}) × SyncFile S). x.0) (sym set) ∙ h))

    first_read :
        (writable : Bool) (l : List (Text × S)) (fuel : ℕ)
        → stamp_of r l ≡ none
        → get_last_stamp writable own (suc fuel) r (stamps l)
          ≡ get_last_stamp writable own fuel r
              (if writable then stamps (put_stamp r own l) else stamps l)
    unfolding set_last_stamp
    first_read writable l fuel h = get_of_stamps writable l fuel ∙ rw (h, named) refl

    never_ends :
        (l : List (Text × S)) (fuel : ℕ)
        → stamp_of r l ≡ none
        → get_last_stamp false own fuel r (stamps l) ≡ none
    unfolding get_last_stamp
    never_ends l zero h = refl
    never_ends l (suc fuel) h = first_read false l fuel h ∙ never_ends l fuel h

    stamps_end : (l : List (Text × S)) → is_some (get_last_stamp true own 2 r (stamps l)) ≡ true
    stamps_end l = elim (some_or_none (stamp_of r l)) [
      | inl h ↦ rw (first_read true l 1 h, get-put true own l 0) refl
      | inr (s, h) ↦ rw (get_of_stamps true l 1, h) refl
    ]

    as_empty :
        (fuel : ℕ)
        → get_last_stamp true own (suc fuel) r missing
          ≡ get_last_stamp true own (suc fuel) r (stamps [])
    unfolding get_last_stamp
    as_empty fuel = rw named refl

    file_ends : (f : SyncFile S) → is_some (get_last_stamp true own 2 r f) ≡ true
    unfolding get_last_stamp
    file_ends missing = rw (as_empty 1) (stamps_end [])
    file_ends malformed = rw named refl
    file_ends (stamps l) = stamps_end l

  -- For a registry with a name, `getLastStamp` ends, after at most one call of itself, where the file
  -- can be written. Where it cannot, and has no stamp of the registry, the calls never end.
  pub get_last_stamp_ends :
      (r : Text) (own : S)
      → is_blank r ≡ false
      → ((f : SyncFile S) → is_some (get_last_stamp true own 2 r f) ≡ true)
        × ((l : List (Text × S)) (fuel : ℕ)
            → stamp_of r l ≡ none
            → get_last_stamp false own fuel r (stamps l) ≡ none)
  get_last_stamp_ends r own named = (file_ends r own named, never_ends r own named)
