-- ===== src/Zip/Tests.antt =====
-- The state is the names that are written; a name is of the output folder where it begins with `o/`.
use drone_db.Base.{◌≡◌, refl, Bool, true, false, not, some, List, [], ◌∷◌, Text, bytes, any}
use drone_db.Mio.{Tree, create_directories, assure_folder_exists}
use drone_db.Remove.{starts_with}
use drone_db.Zip.{ZipEntry, extract_all}
use drone_db.Zip.Extract.{Contained, extraction_stays_inside}

abbrev never : Text → Bool
never p = false

abbrev names : Tree (List Text)
names = record {
  exists = λ t p. true;
  is_directory = λ t p. true;
  remove_all = λ p t. (false, t);
  create_directories = λ p t. (false, t);
  copy = λ p t. (false, t);
  rename = λ p q t. (false, t);
  mtime_of = λ t p. some 5;
  set_mtime = λ p time t. (false, t);
}

abbrev opens : Text → List Text → Bool × List Text
opens p t = (false, t)

abbrev writes : Text → ZipEntry → List Text → List Text
writes p e t = p ∷ t

abbrev outdir_of : Text → Text
outdir_of p = bytes "o"

-- what is written elsewhere
abbrev is_elsewhere : List Text → Bool
is_elsewhere t = any (λ p. not (starts_with (bytes "o/") p)) t

abbrev readme : ZipEntry
readme = record {
  stat_fails = false;
  name = some (bytes "d/readme");
  cannot_open = false;
  cannot_read = false;
}

abbrev evil : ZipEntry
evil = record readme { name = some (bytes "../etc") }

contained : Contained names opens writes outdir_of never (bytes "o") (bytes "o" ∷ []) is_elsewhere
unfolding create_directories assure_folder_exists any
contained = record {
  creation_unseen = λ t. refl;
  folder_unseen = λ name i t. refl;
  parent_unseen = λ name i t. refl;
  opening_unseen = λ name t i. refl;
  writing_unseen = λ name e t i. refl;
}

extraction_stays_inside_example :
    is_elsewhere
      (extract_all names opens writes outdir_of never (bytes "o") false (readme ∷ evil ∷ []) []).1
    ≡ false
unfolding any
extraction_stays_inside_example =
    extraction_stays_inside names opens writes outdir_of never (bytes "o") (bytes "o" ∷ [])
      is_elsewhere contained false (readme ∷ evil ∷ []) []
