-- ===== src/Index/Table.antt =====
-- include/entry.h, include/entry_types.h and the table of library/database.cpp: rows, with the path
-- as the primary key, and the statements that dbops.cpp runs on it.
-- `properties` and the geometries are the texts that are stored. Times count seconds since the
-- epoch and are not negative.
use drone_db.Base.{
  ℕ, ◌≡◌, Bool, Option, none, some, List, [], ◌∷◌, ◌++◌, Text, same, is_some, if◌then◌else◌, Result,
  ok, err, sql_error,
}

pub data EntryType : Type 0 where
  undefined_type directory generic geo_image geo_raster point_cloud image drone_db_type : EntryType
  markdown video geo_video model panorama geo_panorama vector gaussian_splat tiles_3d : EntryType

pub record Entry : Type 0 where
  pub path : Text
  pub hash : Text
  pub type : EntryType
  pub properties : Text
  pub mtime : ℕ
  pub size : ℕ
  pub depth : ℕ
  pub point_geom : Text
  pub polygon_geom : Text

-- `Entry e;`
abbrev pub empty_entry : Entry
empty_entry = record {
  path = [];
  hash = [];
  type = undefined_type;
  properties = [];
  mtime = 0;
  size = 0;
  depth = 0;
  point_geom = [];
  polygon_geom = [];
}

abbrev pub Table : Type 0
Table = List Entry

-- SELECT ... WHERE path = ?
unfoldable pub find_row : Text → Table → Option Entry
find_row p [] = none
find_row p (e ∷ t) = if same e.path p then some e else find_row p t

-- UPDATE_QUERY, bound by `doUpdate`: every column of the row with the entry's path
unfoldable pub do_update : Entry → Table → Table
do_update e [] = []
do_update e (x ∷ t) = (if same x.path e.path then e else x) ∷ do_update e t

-- INSERT: the primary key refuses a second row of a path.
unfoldable pub insert_row : Entry → Table → Result Table
unfolding find_row
insert_row e t = elim (find_row e.path t) [ none ↦ ok (t ++ e ∷ []) | some _ ↦ err sql_error ]

-- DELETE ... WHERE path = ?
unfoldable pub delete_row : Text → Table → Table
delete_row p [] = []
delete_row p (e ∷ t) = let rest = delete_row p t in if same e.path p then rest else e ∷ rest

abbrev pub has_row : Text → Table → Bool
has_row p t = is_some (find_row p t)

abbrev pub HasUniqueRows : Table → Type 0
HasUniqueRows [] = Unit
HasUniqueRows (e ∷ t) = (find_row e.path t ≡ none) × HasUniqueRows t
