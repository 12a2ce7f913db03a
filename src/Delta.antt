-- ===== src/Delta.antt =====
-- library/delta.cpp, include/delta.h and include/simpleentry.h: what to add and to remove, so that
-- the destination's stamp becomes the source's.
-- A stamp is the JSON object of `Database::getStamp`; each of its two arrays may be missing. An
-- entry of the array is an object with one key, here a pair.
pub mod Entries
pub mod Actions
pub mod Order
pub mod Convergence
pub mod Meta
pub mod Json
mod Tests
use drone_db.Base.{
  Bool, true, false, ◌&&◌, not, Option, none, some, List, [], ◌∷◌, ◌++◌, map, Text, same, lt, any,
  bytes, if◌then◌else◌, Result, ok, err, invalid_args, ◌>>=◌,
}
use drone_db.Base.Sort.{sort}

pub record SimpleEntry : Type 0 where
  pub path : Text
  pub hash : Text

pub record AddAction : Type 0 where
  pub path : Text
  pub hash : Text

pub record RemoveAction : Type 0 where
  pub path : Text
  pub hash : Text

pub record Delta : Type 0 where
  pub adds : List AddAction
  pub removes : List RemoveAction
  pub meta_adds : List Text
  pub meta_removes : List Text

pub record Stamp : Type 0 where
  pub entries : Option (List (Text × Text))
  pub meta : Option (List Text)

-- `isDirectory()`: no hash
abbrev pub is_empty {ℓ} : {A : Type ℓ} → List A → Bool
is_empty [] = true
is_empty (x ∷ xs) = false

abbrev pub is_directory : Text → Bool
is_directory hash = is_empty hash

abbrev pub or_fail {ℓ} : {A : Type ℓ} → Option A → Result A
or_fail none = err invalid_args
or_fail (some a) = ok a

abbrev pub simple_entry : Text × Text → SimpleEntry
simple_entry (k, v) = record { path = k; hash = v }

pub parse_stamp_entries : Stamp → Result (List SimpleEntry)
parse_stamp_entries stamp = do found ← or_fail stamp.entries; ok (map simple_entry found)

abbrev pub by_path : SimpleEntry → SimpleEntry → Bool
by_path l r = lt l.path r.path

abbrev pub by_path_descending : RemoveAction → RemoveAction → Bool
by_path_descending l r = lt r.path l.path

-- the two `find_if`
pub has_entry : Text → Text → List SimpleEntry → Bool
has_entry p h es = any (λ e. same e.hash h && same e.path p) es

abbrev pub same_kind : Bool → Bool → Bool
same_kind true b = b
same_kind false b = not b

pub has_path : Text → Bool → List SimpleEntry → Bool
has_path p folder es = any (λ e. same e.path p && same_kind (is_directory e.hash) folder) es

pub collect_adds : List SimpleEntry → List SimpleEntry → List AddAction
collect_adds [] destination = []
collect_adds (e ∷ es) destination =
    let rest = collect_adds es destination in
    if has_entry e.path e.hash destination
    then rest
    else record { path = e.path; hash = e.hash } ∷ rest

pub collect_removes : List SimpleEntry → List SimpleEntry → List RemoveAction
collect_removes source [] = []
collect_removes source (e ∷ es) =
    let rest = collect_removes source es in
    if has_path e.path (is_directory e.hash) source
    then rest
    else record { path = e.path; hash = e.hash } ∷ rest

-- `metaIds`, an `unordered_map` to `true`: its keys. The order in which it is walked is not
-- specified; the model keeps the order of insertion.
abbrev pub put_key : Text → List Text → List Text
put_key id ids = if any (same id) ids then ids else id ∷ ids

pub erase_key : Text → List Text → List Text
erase_key id [] = []
erase_key id (k ∷ ks) = let rest = erase_key id ks in if same id k then rest else k ∷ rest

pub put_keys : List Text → List Text → List Text
put_keys [] m = m
put_keys (id ∷ ids) m = put_keys ids (put_key id m)

pub erase_keys : List Text → List Text → List Text
erase_keys [] m = m
erase_keys (id ∷ ids) m = erase_keys ids (erase_key id m)

-- the keys left of `ids` once those of `others` are erased
pub ids_without : List Text → List Text → List Text
ids_without ids others = erase_keys others (put_keys ids [])

pub get_delta : Stamp → Stamp → Result Delta
unfolding parse_stamp_entries collect_adds collect_removes
get_delta source_stamp destination_stamp = do
  source ← parse_stamp_entries source_stamp
  destination ← parse_stamp_entries destination_stamp
  let src = sort by_path source
  let dst = sort by_path destination
  source_meta ← or_fail source_stamp.meta
  destination_meta ← or_fail destination_stamp.meta
  ok (record {
    adds = collect_adds src dst;
    removes = sort by_path_descending (collect_removes src dst);
    meta_adds = ids_without source_meta destination_meta;
    meta_removes = ids_without destination_meta source_meta;
  })

pub modified_path_list : Delta → List Text
modified_path_list d = map (λ a. a.path) d.adds ++ map (λ r. r.path) d.removes

pub empty : Delta → Bool
empty d = is_empty d.adds && is_empty d.removes && is_empty d.meta_adds && is_empty d.meta_removes

-- `to_json`, by the keys of the object; `from_json` also reads an object that lacks some.
pub record DeltaObject : Type 0 where
  pub adds : Option (List (Text × Text))
  pub removes : Option (List (Text × Text))
  pub meta_adds : Option (List Text)
  pub meta_removes : Option (List Text)

pub to_json : Delta → DeltaObject
to_json d = record {
  adds = some (map (λ a. (a.path, a.hash)) d.adds);
  removes = some (map (λ r. (r.path, r.hash)) d.removes);
  meta_adds = some d.meta_adds;
  meta_removes = some d.meta_removes;
}

abbrev pub or_empty {ℓ} : {A : Type ℓ} → Option (List A) → List A
or_empty none = []
or_empty (some l) = l

abbrev pub add_action : Text × Text → AddAction
add_action (k, v) = record { path = k; hash = v }

abbrev pub remove_action : Text × Text → RemoveAction
remove_action (k, v) = record { path = k; hash = v }

-- `adds` and `removes` are cleared first; the ids are pushed behind those that `d` holds.
pub from_json : DeltaObject → Delta → Delta
from_json j d = record {
  adds = map add_action (or_empty j.adds);
  removes = map remove_action (or_empty j.removes);
  meta_adds = d.meta_adds ++ or_empty j.meta_adds;
  meta_removes = d.meta_removes ++ or_empty j.meta_removes;
}

pub data Report : Type 0 where
  dumped : DeltaObject → Report
  printed : List Text → Report
  nothing : Report

abbrev pub mark : Text → Text
mark hash = if is_directory hash then bytes " (D)" else []

pub delta : Stamp → Stamp → Text → Result Report
delta source_stamp destination_stamp format = do
  d ← get_delta source_stamp destination_stamp
  ok (
      if same format (bytes "json")
      then dumped (to_json d)
      else if same format (bytes "text")
      then printed (
          map (λ a. b'A' ∷ 9 ∷ (a.path ++ mark a.hash)) d.adds
          ++ map (λ r. b'D' ∷ 9 ∷ (r.path ++ mark r.hash)) d.removes)
      else nothing)
