-- ===== src/Delta/Tests.antt =====
-- Two stamps: a file that changes, one that goes, one that comes, and a file that becomes a folder.
use drone_db.Base.{◌≡◌, refl, some, [], ◌∷◌, same, same_iff, lt, bytes, ok, any, arith}
use drone_db.Base.Sort.{sort, insert, IsSorted}
use drone_db.Delta.{
  Delta, Stamp, has_entry, has_path, collect_adds, collect_removes, get_delta, put_keys, erase_keys,
  erase_key, ids_without, to_json, from_json, parse_stamp_entries,
}
use drone_db.Delta.Actions.{entries_of}
use drone_db.Delta.Order.{add_inside, remove_holds, folders_in_order}
use drone_db.Delta.Convergence.{HasUniquePaths, after_delta, get_delta_converges}
use drone_db.Delta.Json.{from_json-to_json}

abbrev local : Stamp
local = record {
  entries = some ((bytes "x", bytes "2") ∷ (bytes "b", bytes "5") ∷ (bytes "a", bytes "1") ∷ []);
  meta = some (bytes "m1" ∷ bytes "m2" ∷ []);
}

abbrev remote : Stamp
remote = record {
  entries = some ((bytes "x/y", bytes "4") ∷ (bytes "x", []) ∷ (bytes "a", bytes "3") ∷ []);
  meta = some (bytes "m2" ∷ bytes "m3" ∷ bytes "m3" ∷ []);
}

abbrev pulled : Delta
pulled = record {
  adds =
      record { path = bytes "a"; hash = bytes "3" }
      ∷ record { path = bytes "x"; hash = [] }
      ∷ record { path = bytes "x/y"; hash = bytes "4" }
      ∷ [];
  removes =
      record { path = bytes "x"; hash = bytes "2" }
      ∷ record { path = bytes "b"; hash = bytes "5" }
      ∷ [];
  meta_adds = bytes "m3" ∷ [];
  meta_removes = bytes "m1" ∷ [];
}

get_delta-pulled : get_delta remote local ≡ ok pulled
unfolding get_delta parse_stamp_entries sort insert collect_adds collect_removes has_entry has_path
    any same lt ids_without put_keys erase_keys erase_key
get_delta-pulled = refl

folders_in_order_example : IsSorted add_inside pulled.adds × IsSorted remove_holds pulled.removes
folders_in_order_example = folders_in_order remote local pulled get_delta-pulled

remote-HasUniquePaths : HasUniquePaths remote
unfolding has_entry any
remote-HasUniquePaths p h k a b = ground (
  arith,
  same_iff (bytes "4") h,
  same_iff (bytes "4") k,
  same_iff [] h,
  same_iff [] k,
  same_iff (bytes "3") h,
  same_iff (bytes "3") k,
  same_iff (bytes "x/y") p,
  same_iff (bytes "x") p,
  same_iff (bytes "a") p,
)

local-HasUniquePaths : HasUniquePaths local
unfolding has_entry any
local-HasUniquePaths p h k a b = ground (
  arith,
  same_iff (bytes "2") h,
  same_iff (bytes "2") k,
  same_iff (bytes "5") h,
  same_iff (bytes "5") k,
  same_iff (bytes "1") h,
  same_iff (bytes "1") k,
  same_iff (bytes "x") p,
  same_iff (bytes "b") p,
  same_iff (bytes "a") p,
)

get_delta_converges_example :
    after_delta pulled (entries_of local) (bytes "x") []
    ≡ has_entry (bytes "x") [] (entries_of remote)
get_delta_converges_example =
    get_delta_converges remote local pulled remote-HasUniquePaths local-HasUniquePaths
      get_delta-pulled (bytes "x") []

from_json-to_json_example : from_json (to_json pulled) pulled ≡ record pulled {
  meta_adds = bytes "m3" ∷ bytes "m3" ∷ [];
  meta_removes = bytes "m1" ∷ bytes "m1" ∷ [];
}
from_json-to_json_example = from_json-to_json pulled pulled
