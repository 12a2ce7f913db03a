-- ===== src/Delta/Json.antt =====
-- `to_json` and `from_json` of a delta.
use drone_db.Base.{◌≡◌, refl, List, [], ◌∷◌, ◌++◌, map, Text}
use drone_db.Delta.{AddAction, RemoveAction, Delta, add_action, remove_action, to_json, from_json}

adds_back :
    (xs : List AddAction)
    → map (λ (t : Text × Text). add_action t) (map (λ a. (a.path, a.hash)) xs) ≡ xs
adds_back [] = refl
adds_back (x ∷ xs) = rw (adds_back xs)

removes_back :
    (xs : List RemoveAction)
    → map (λ (t : Text × Text). remove_action t) (map (λ r. (r.path, r.hash)) xs) ≡ xs
removes_back [] = refl
removes_back (x ∷ xs) = rw (removes_back xs)

-- Reading what was written gives the delta back, except that the metadata ids which the delta read
-- into already had stay in front: `from_json` clears its actions and not its ids.
pub from_json-to_json :
    (d e : Delta)
    → from_json (to_json d) e ≡ record d {
      meta_adds = e.meta_adds ++ d.meta_adds;
      meta_removes = e.meta_removes ++ d.meta_removes;
    }
unfolding from_json to_json
from_json-to_json d e = rw (adds_back d.adds, removes_back d.removes)
