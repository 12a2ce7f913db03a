-- ===== src/Build/Tests.antt =====
-- A raster `r.tif` that is built into `b/h/cog`, and a file `s.shx` that is built as `b/m/vec`. The state of
-- the tree is whether the scratch folder and the output folder have an output.
use drone_db.Base.{
  ◌≡◌, refl, ap, ◌∙◌, Bool, true, false, ◌&&◌, some, [], ◌∷◌, ◌++◌, Text, same, bytes, any, arith,
  if◌then◌else◌, ok,
}
use drone_db.Index.Table.{generic, geo_raster, vector, Entry, Table, empty_entry, find_row}
use drone_db.Mio.{
  Tree, assure_folder_exists, assure_is_removed, create_directories, rename, check_extension,
  attempts,
}
use drone_db.Build.{is_buildable_internal, is_buildable_dependency, target_of, Target}
use drone_db.Build.Output.{Sight, is_build_output_complete, is_build_complete}
use drone_db.Build.Internal.{
  Made, made, failed_otherwise, Tools, Site, Places, attempt, publish, caught, make, locked_build,
  build_internal,
}
use drone_db.Build.Failure.{Apart, failed_build_keeps_output, dependency_builds_nothing}
use drone_db.Build.Success.{Publishes, returned_build_is_complete}

abbrev pub Bits : Type 0
Bits = Bool × Bool

abbrev scratch_of : Text → Text
scratch_of output = output ++ bytes "-temp-x"

abbrev pub bits : Text → Tree Bits
bits output = record {
  exists = λ t p. if same p output then t.1 else if same p (scratch_of output) then t.0 else false;
  is_directory = λ t p. true;
  remove_all = λ p t.
      if same p output
      then (false, (t.0, false))
      else if same p (scratch_of output)
      then (false, (false, t.1))
      else (false, t);
  create_directories = λ p t. (false, t);
  copy = λ p t. (false, t);
  rename = λ p q t. (false, (false, t.0));
  mtime_of = λ t p. some 5;
  set_mtime = λ p time t. (false, t);
}

abbrev pub seen_bits : Text → Sight Bits
seen_bits output = record { non_empty = λ t p. false; has_content = λ t p. same p output && t.1 }

-- `build_cog` is the tool that is used here.
abbrev tools_with : Made → Tools Bits
tools_with end = record {
  build_copc = λ p q t. (made, t);
  build_cog = λ p q t. (end, (true, t.1));
  build_nexus = λ p q t. (made, t);
  model_tiles = λ p q t. t;
  build_vector = λ p q force t. (made, t);
  build_gsplat = λ p q t. (made, t);
  extract_all = λ p q t. (made, t);
}

abbrev pub site : Site Bits
site = record {
  write_pending = λ p deps t. t;
  lock = λ p t. (ok tt, t);
  unlock = λ p t. t;
  space = λ p t. ok tt;
}

abbrev raster : Entry
raster = record empty_entry { path = bytes "r.tif"; hash = bytes "h"; type = geo_raster }

abbrev shape : Entry
shape = record empty_entry { path = bytes "s.shp"; hash = bytes "m"; type = vector }

abbrev shape_index : Entry
shape_index = record empty_entry { path = bytes "s.shx"; hash = bytes "i"; type = generic }

abbrev pub rows : Table
rows = raster ∷ shape ∷ shape_index ∷ []

abbrev pub no_parent : Text → Text
no_parent p = []

abbrev pub shx : Text → Text
shx p = bytes ".shx"

abbrev pub as_shp : Text → Text → Text
as_shp p x = bytes "s.shp"

abbrev cog_target : Target
cog_target = record { hash = bytes "h"; subfolder = bytes "cog"; forced = true }

abbrev vec_target : Target
vec_target = record { hash = bytes "m"; subfolder = bytes "vec"; forced = true }

abbrev places_at : Text → Text → Text → Places
places_at source base output = record {
  source = source;
  base = base;
  output = output;
  scratch = scratch_of output;
}

abbrev cog_places : Places
cog_places = places_at (bytes "/r.tif") (bytes "b/h") (bytes "b/h/cog")

abbrev vec_places : Places
vec_places = places_at (bytes "/s.shx") (bytes "b/m") (bytes "b/m/vec")

abbrev output_bit : Bits → Bool
output_bit t = t.1

module _ (output : Text) where
  folder_quiet : (p : Text) (t : Bits) → (assure_folder_exists (bits output) p t).1 ≡ t
  unfolding assure_folder_exists create_directories
  folder_quiet p t = ground arith

cog_removal :
    (t : Bits) → (assure_is_removed (bits (bytes "b/h/cog")) (bytes "b/h/cog-temp-x") t).1.1 ≡ t.1
unfolding assure_is_removed attempts same
cog_removal (true, o) = refl
cog_removal (false, o) = refl

cog-Apart : Apart (bits (bytes "b/h/cog")) site cog_places output_bit
unfolding assure_is_removed attempts same
cog-Apart = record {
  base_unseen = λ t. ap output_bit (folder_quiet (bytes "b/h/cog") (bytes "b/h") t);
  scratch_unseen = λ t. ap output_bit (folder_quiet (bytes "b/h/cog") (bytes "b/h/cog-temp-x") t);
  removal_unseen = cog_removal;
  pending_unseen = λ t. refl;
  write_unseen = λ deps t. refl;
  lock_unseen = λ t. refl;
  unlock_unseen = λ t. refl;
}

failed_build_keeps_output_example :
    output_bit
      (build_internal
        (bits (bytes "b/h/cog"))
        (seen_bits (bytes "b/h/cog"))
        (tools_with failed_otherwise)
        site
        no_parent
        shx
        as_shp
        []
        (bytes "b")
        (bytes "x")
        rows
        raster
        true
        (false, true)).1
    ≡ true
unfolding target_of is_buildable_internal attempt
failed_build_keeps_output_example =
    failed_build_keeps_output output_bit (bits (bytes "b/h/cog")) (seen_bits (bytes "b/h/cog"))
      (tools_with failed_otherwise) site no_parent shx as_shp [] (bytes "b") (bytes "x") rows raster
      true cog_target (false, true) refl cog-Apart (λ t. (refl, refl))

vec_removal :
    (t : Bits) → (assure_is_removed (bits (bytes "b/m/vec")) (bytes "b/m/vec-temp-x") t).1.1 ≡ t.1
unfolding assure_is_removed attempts same
vec_removal (true, o) = refl
vec_removal (false, o) = refl

vec-Apart : Apart (bits (bytes "b/m/vec")) site vec_places output_bit
unfolding assure_is_removed attempts same
vec-Apart = record {
  base_unseen = λ t. ap output_bit (folder_quiet (bytes "b/m/vec") (bytes "b/m") t);
  scratch_unseen = λ t. ap output_bit (folder_quiet (bytes "b/m/vec") (bytes "b/m/vec-temp-x") t);
  removal_unseen = vec_removal;
  pending_unseen = λ t. refl;
  write_unseen = λ deps t. refl;
  lock_unseen = λ t. refl;
  unlock_unseen = λ t. refl;
}

dependency_builds_nothing_example :
    output_bit
      (build_internal
        (bits (bytes "b/m/vec"))
        (seen_bits (bytes "b/m/vec"))
        (tools_with made)
        site
        no_parent
        shx
        as_shp
        []
        (bytes "b")
        (bytes "x")
        rows
        shape_index
        false
        (false, true)).1
    ≡ true
unfolding target_of is_buildable_internal is_buildable_dependency check_extension any same find_row
dependency_builds_nothing_example =
    dependency_builds_nothing output_bit (bits (bytes "b/m/vec")) (seen_bits (bytes "b/m/vec"))
      (tools_with made) site no_parent shx as_shp [] (bytes "b") (bytes "x") rows shape_index false
      vec_target (false, true) refl refl vec-Apart

abbrev scratch_bit : Bits → Bool
scratch_bit t = t.0

abbrev pub ready_tools : Tools Bits
ready_tools = tools_with made

cog_removal-scratch :
    (t : Bits)
    → t.0 ≡ true
    → (assure_is_removed (bits (bytes "b/h/cog")) (bytes "b/h/cog") t).1.0 ≡ true
unfolding assure_is_removed attempts same
cog_removal-scratch (s, true) h = h
cog_removal-scratch (s, false) h = h

cog-Publishes :
    Publishes
      (bits (bytes "b/h/cog"))
      (seen_bits (bytes "b/h/cog"))
      ready_tools
      site
      cog_places
      geo_raster
      (bytes "cog")
      scratch_bit
unfolding attempt is_build_output_complete same rename
cog-Publishes = record {
  tool_readies = λ force t h. refl;
  removal_keeps_ready = cog_removal-scratch;
  base_keeps_ready = λ t h. ap scratch_bit (folder_quiet (bytes "b/h/cog") (bytes "b/h") t) ∙ h;
  move_completes = λ t h e. h;
  removal_keeps_complete = λ t h. cog_removal t ∙ h;
  unlock_keeps_complete = λ t h. h;
}

returned_build_is_complete_example :
    is_build_complete
      (seen_bits (bytes "b/h/cog"))
      no_parent
      shx
      as_shp
      (bytes "b")
      rows
      (bytes "r.tif")
      (build_internal
        (bits (bytes "b/h/cog"))
        (seen_bits (bytes "b/h/cog"))
        ready_tools
        site
        no_parent
        shx
        as_shp
        []
        (bytes "b")
        (bytes "x")
        rows
        raster
        false
        (false, false)).1
    ≡ true
unfolding is_buildable_internal same build_internal target_of locked_build is_build_output_complete
    make attempt publish caught rename assure_folder_exists create_directories assure_is_removed
    attempts find_row
returned_build_is_complete_example =
    returned_build_is_complete (bits (bytes "b/h/cog")) (seen_bits (bytes "b/h/cog")) ready_tools
      site no_parent shx as_shp [] (bytes "b") (bytes "x") rows raster false (bytes "cog")
      scratch_bit (false, false) refl refl refl cog-Publishes refl
