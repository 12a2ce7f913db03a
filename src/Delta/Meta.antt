-- ===== src/Delta/Meta.antt =====
-- The metadata ids that a delta adds and removes.
use drone_db.Base.{
  ◌≡◌, refl, Bool, false, ◌&&◌, ◌||◌, not, List, [], ◌∷◌, arith, Text, same, same_iff, any, ok,
}
use drone_db.Delta.{Delta, Stamp, put_key, erase_key, put_keys, erase_keys, ids_without, get_delta}
use drone_db.Delta.Actions.{get_delta-eq-ok, meta_of}

abbrev pub has_id : Text → List Text → Bool
has_id id ids = any (same id) ids

abbrev pub HasNoRepeats : List Text → Type 0
HasNoRepeats [] = Unit
HasNoRepeats (x ∷ xs) = (has_id x xs ≡ false) × HasNoRepeats xs

has_id-erase :
    (j id : Text) (m : List Text) → has_id j (erase_key id m) ≡ (has_id j m && not (same id j))
unfolding any erase_key
has_id-erase j id [] = refl
has_id-erase j id (k ∷ m) =
    ground (arith, has_id-erase j id m, same_iff id k, same_iff j k, same_iff id j)

has_id-put : (j id : Text) (m : List Text) → has_id j (put_key id m) ≡ (same j id || has_id j m)
unfolding any
has_id-put j id m = ground (arith, same_iff j id)

has_id-put_keys :
    (j : Text) (ids m : List Text) → has_id j (put_keys ids m) ≡ (has_id j ids || has_id j m)
unfolding any put_keys
has_id-put_keys j [] m = refl
has_id-put_keys j (id ∷ ids) m =
    ground (arith, has_id-put_keys j ids (put_key id m), has_id-put j id m)

has_id-erase_keys :
    (j : Text) (ids m : List Text)
    → has_id j (erase_keys ids m) ≡ (has_id j m && not (has_id j ids))
unfolding any erase_keys
has_id-erase_keys j [] m = ground arith
has_id-erase_keys j (id ∷ ids) m = ground (
  arith,
  has_id-erase_keys j ids (erase_key id m),
  has_id-erase j id m,
  same_iff j id,
  same_iff id j,
)

has_id-ids_without :
    (j : Text) (ids others : List Text)
    → has_id j (ids_without ids others) ≡ (has_id j ids && not (has_id j others))
unfolding ids_without
has_id-ids_without j ids others =
    ground (arith, has_id-erase_keys j others (put_keys ids []), has_id-put_keys j ids [], nil j)
  where
    nil : (k : Text) → any (same k) [] ≡ false
    nil k = unfold any in refl

erase_key-HasNoRepeats :
    (id : Text) (m : List Text) → HasNoRepeats m → HasNoRepeats (erase_key id m)
unfolding erase_key
erase_key-HasNoRepeats id [] h = tt
erase_key-HasNoRepeats id (k ∷ m) h =
    ground (arith, erase_key-HasNoRepeats id m h.1, has_id-erase k id m)

put_keys-HasNoRepeats : (ids m : List Text) → HasNoRepeats m → HasNoRepeats (put_keys ids m)
unfolding put_keys
put_keys-HasNoRepeats [] m h = h
put_keys-HasNoRepeats (id ∷ ids) m h = put_keys-HasNoRepeats ids (put_key id m) (ground arith)

erase_keys-HasNoRepeats : (ids m : List Text) → HasNoRepeats m → HasNoRepeats (erase_keys ids m)
unfolding erase_keys
erase_keys-HasNoRepeats [] m h = h
erase_keys-HasNoRepeats (id ∷ ids) m h =
    erase_keys-HasNoRepeats ids (erase_key id m) (erase_key-HasNoRepeats id m h)

ids_without-HasNoRepeats : (ids others : List Text) → HasNoRepeats (ids_without ids others)
unfolding ids_without
ids_without-HasNoRepeats ids others =
    erase_keys-HasNoRepeats others (put_keys ids []) (put_keys-HasNoRepeats ids [] tt)

-- The metadata ids to add are those of the source that the destination lacks, and the ids to
-- remove those of the destination that the source lacks; none is listed twice.
pub meta_exact :
    (s t : Stamp) (d : Delta) (id : Text)
    → get_delta s t ≡ ok d
    → (has_id id d.meta_adds ≡ (has_id id (meta_of s) && not (has_id id (meta_of t))))
      × (has_id id d.meta_removes ≡ (has_id id (meta_of t) && not (has_id id (meta_of s))))
      × HasNoRepeats d.meta_adds
      × HasNoRepeats d.meta_removes
meta_exact s t d id e = rw (get_delta-eq-ok s t d e) (
  has_id-ids_without id _ _,
  has_id-ids_without id _ _,
  ids_without-HasNoRepeats _ _,
  ids_without-HasNoRepeats _ _,
)
