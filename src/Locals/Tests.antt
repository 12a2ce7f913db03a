-- ===== src/Locals/Tests.antt =====
-- The index has the file `a` with the hash `1`; the delta adds `b` with that hash, and `c` with another. The
-- state of the tree is what the files have in them.
use drone_db.Base.{
  Option, none, is_some, err, fs_error, if◌then◌else◌, Bool, true, false, some, List, [], ◌∷◌, Text,
  same, bytes, Result, ok,
}
use drone_db.Index.Table.{Table, empty_entry}
use drone_db.Delta.{AddAction}
use drone_db.Mio.{Tree, create_directories}
use drone_db.Locals.{compute_delta_locals}

abbrev Contents : Type 0
Contents = Text → Option Text

abbrev contents : Tree Contents
contents = record {
  exists = λ t p. is_some (t p);
  is_directory = λ t p. false;
  remove_all = λ p t. (false, t);
  create_directories = λ p t. (false, t);
  copy = λ p t. (false, t);
  rename = λ p q t. (false, t);
  mtime_of = λ t p. some 5;
  set_mtime = λ p time t. (false, t);
}

abbrev put_content : Option Text → Text → Contents → Bool × Contents
put_content none link t = (true, t)
put_content (some c) link t = (false, λ x. if same link x then some c else t x)

abbrev put : Text → Text → Contents → Bool × Contents
put target link t = put_content (t target) link t

abbrev leave : Text → Contents → Bool × Contents
leave p t = (false, λ x. if same p x then none else t x)

abbrev content_hash : Option Text → Result Text
content_hash none = err fs_error
content_hash (some c) = ok c

abbrev hash_of : Contents → Text → Result Text
hash_of t p = content_hash (t p)

abbrev parent_path : Text → Text
parent_path p = []

abbrev rows : Table
rows = record empty_entry { path = bytes "a"; hash = bytes "1"; mtime = 5 } ∷ []

abbrev adds : List AddAction
adds =
    record { path = bytes "b"; hash = bytes "1" }
    ∷ record { path = bytes "c"; hash = bytes "2" }
    ∷ []

abbrev at_first : Contents
at_first p = if same (bytes "//a") p then some (bytes "text") else none

abbrev result : Result (List Text) × Contents
result =
    compute_delta_locals contents put put leave hash_of parent_path (bytes "/") (bytes "new") rows
      adds at_first
