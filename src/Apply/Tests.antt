-- ===== src/Apply/Tests.antt =====
-- The index has the files `a` and `b`; the remote index has removed `a` and changed `b`. Relative and
-- absolute paths are the same here, and LIKE matches `a` only, by its own name.
use drone_db.Base.{
  ◌≡◌, refl, sym, ap, ok-injective, arith, Bool, true, false, ◌&&◌, ◌||◌, not, none, some, List, [],
  ◌∷◌, Text, same, all, any, bytes, Result, ok,
}
use drone_db.Index.Table.{generic, Entry, empty_entry, find_row}
use drone_db.Index.Check.{Files}
use drone_db.Index.Add.Passes.{Pass}
use drone_db.Transaction.{Fault}
use drone_db.Delta.{Delta}
use drone_db.Remove.{pattern_of, match_pattern}
use drone_db.Apply.{dont_merge, keep_theirs, Local, apply_delta}
use drone_db.Mio.{Tree}
use drone_db.Apply.Here.{Place, here, here-Laws, indexed_files_are_not_replaced}
use drone_db.Apply.Steps.{Laws}
use drone_db.Apply.Survival.{Returns, local_changes_survive}

abbrev Names : Type 0
Names = Text → Bool

abbrev names : Tree Names
names = record {
  exists = λ t p. t p;
  is_directory = λ t p. false;
  remove_all = λ p t. (false, λ x. t x && not (same x p));
  create_directories = λ p t. (false, λ x. t x || same x p);
  copy = λ p t. (false, λ x. t x || same x p);
  rename = λ p q t. (false, λ x. (t x && not (same x p)) || same x q);
  mtime_of = λ t p. some 5;
  set_mtime = λ p time t. (false, t);
}

abbrev like_a : Text → Text → Bool
like_a pattern p = same pattern p && same p (bytes "a")

abbrev covers_a : Text → Text → Bool
covers_a p q = same q (bytes "a")

covers_a-matches :
    (p e q : Text)
    → like_a (match_pattern p false) e ≡ true
    → covers_a p q ≡ false
    → (like_a (pattern_of e false) q ≡ false) × (like_a (pattern_of e true) q ≡ false)
covers_a-matches p e q l c = (ground arith, ground arith)

abbrev never : Text → Bool
never h = false

abbrev no_faults : Text → Bool → Fault × Fault
no_faults q in_folder = (none, none)

abbrev id : Text → Text
id p = p

abbrev parse_any : Files → Text → Entry → Result Entry
parse_any f p e = ok (record empty_entry { path = p; hash = p; mtime = 5; size = 9 })

parsed_any : (f : Files) (q : Text) (e e' : Entry) → parse_any f q e ≡ ok e' → e'.path ≡ id q
parsed_any f q e e' h = ap (λ (x : Entry). x.path) (sym (ok-injective h))

abbrev disk : Files
disk = record {
  exists = λ p. true;
  is_directory = λ p. false;
  mtime_of = λ p. some 5;
  size_of = λ p. some 9;
  sha256 = λ p. ok p;
}

abbrev quiet : Names → Pass
quiet t = record {
  at_compute = disk;
  at_commit = disk;
  others = λ rows. rows;
  begin_fault = none;
  commit_fault = none;
}

abbrev itself : Names → Text → List Text
itself t p = p ∷ []

abbrev file_of : Text → Text → Entry
file_of p hash = record empty_entry { path = p; hash = hash; type = generic }

abbrev row_a : Entry
row_a = file_of (bytes "a") (bytes "1")

abbrev row_b : Entry
row_b = file_of (bytes "b") (bytes "local")

abbrev place : Place Names
place = (
  (record { entries = row_a ∷ row_b ∷ []; metas = [] }, λ h. true),
  λ p. any (same p) (bytes "a" ∷ bytes "b" ∷ []),
)

abbrev remote : Delta
remote = record {
  adds = record { path = bytes "b"; hash = bytes "remote" } ∷ [];
  removes = record { path = bytes "a"; hash = bytes "1" } ∷ [];
  meta_adds = [];
  meta_removes = [];
}

abbrev local_index : Local (Place Names)
local_index =
    here names like_a never no_faults (none, none) id id parse_any itself quiet (bytes ".ddb/tmp/x")

local_index-Laws : Laws local_index covers_a
local_index-Laws =
    here-Laws names like_a never no_faults (none, none) id id parse_any itself quiet
      (bytes ".ddb/tmp/x") covers_a covers_a-matches parsed_any (λ t rows. refl)

b_is_there : local_index.get_entry place (bytes "b") ≡ some row_b
unfolding here find_row same
b_is_there = refl

local_changes_survive_example :
    (local_index.get_entry (apply_delta local_index dont_merge remote [] place).1 (bytes "b")
      ≡ some row_b)
    × Returns local_index covers_a local_index-Laws dont_merge
        (bytes "b")
        row_b
        true
        (apply_delta local_index dont_merge remote [] place).0
unfolding any all same
local_changes_survive_example =
    local_changes_survive local_index covers_a local_index-Laws dont_merge (bytes "b") row_b remote
      [] place refl refl refl b_is_there

b_has_a_row : find_row (bytes "b") (row_a ∷ row_b ∷ []) ≡ some row_b
unfolding find_row same
b_has_a_row = refl

indexed_files_are_not_replaced_example :
    find_row (bytes "b") (apply_delta local_index keep_theirs remote [] place).1.0.0.entries
    ≡ some row_b
unfolding all same
indexed_files_are_not_replaced_example =
    indexed_files_are_not_replaced names like_a never no_faults (none, none) id id parse_any itself
      quiet (bytes ".ddb/tmp/x") covers_a covers_a-matches parsed_any (λ t rows. refl) keep_theirs
      remote [] place (bytes "b") row_b refl b_has_a_row
