-- ===== src/Tag/Manager.antt =====
-- `TagManager` of library/tagmanager.cpp: the tag of an index, in a file with a JSON object.
use drone_db.Base.{
  ℕ, false, Option, none, some, [], Text, same, bytes, if◌then◌else◌, Result, ok, err, ◌>>=◌,
}
use drone_db.Tag.{TagComponents, Url, parse_tag, full_tag, tag}

-- The object by its keys; every value is a text here.
abbrev pub Json : Type 0
Json = Text → Option Text

abbrev pub no_keys : Json
no_keys key = none

-- What the file is when it was missing.
abbrev pub or_created : Option Json → Json
or_created none = no_keys
or_created (some j) = j

module _ (parse_url : Text → Result Url) (to_string : ℕ → Text) where
  abbrev pub read_tag : Option Text → Result Text
  read_tag none = ok []
  read_tag (some text) = parse_tag parse_url to_string false text >>= (λ t. ok (tag t))

  unfoldable pub get_tag : Option Json → Result Text × Option Json
  get_tag none = (ok [], some no_keys)
  get_tag (some j) = (read_tag (j (bytes "tag")), some j)

  abbrev pub stored : Json → TagComponents → Json
  stored j t key = if same key (bytes "tag") then some (full_tag t) else j key

  abbrev pub write_tag : Option Json → Result TagComponents → Result (Unit {0}) × Option Json
  write_tag file (err e) = (err e, file)
  write_tag file (ok t) = (ok tt, some (stored (or_created file) t))

  unfoldable pub set_tag : Text → Option Json → Result (Unit {0}) × Option Json
  set_tag text file = write_tag file (parse_tag parse_url to_string false text)
