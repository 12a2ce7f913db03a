-- ===== src/Index/EntryTypes.antt =====
-- library/entry_types.cpp: the names of the types of entries.
use drone_db.Base.{
  ℕ, ◌+◌, ◌≡◌, refl, sym, ap, ◌∙◌, ◌&&◌, List, [], ◌∷◌, map, Text, bytes, same, leb, eqb,
  if◌then◌else◌,
}
use drone_db.Index.Table.{
  EntryType, undefined_type, directory, generic, geo_image, geo_raster, point_cloud, image,
  drone_db_type, markdown, video, geo_video, model, panorama, geo_panorama, vector, gaussian_splat,
  tiles_3d,
}

-- `std::tolower` on a byte in the C locale
abbrev pub to_lower : ℕ → ℕ
to_lower c = if leb b'A' c && leb c b'Z' then c + 32 else c

abbrev pub lower : Text → Text
lower s = map to_lower s

-- `typeMapper`, an ordered map
abbrev pub type_mapper : List (EntryType × Text)
type_mapper =
    (undefined_type, bytes "Undefined")
    ∷ (directory, bytes "Directory")
    ∷ (generic, bytes "Generic")
    ∷ (geo_image, bytes "GeoImage")
    ∷ (geo_raster, bytes "GeoRaster")
    ∷ (point_cloud, bytes "PointCloud")
    ∷ (image, bytes "Image")
    ∷ (drone_db_type, bytes "DroneDB")
    ∷ (markdown, bytes "Markdown")
    ∷ (video, bytes "Video")
    ∷ (geo_video, bytes "GeoVideo")
    ∷ (model, bytes "Model")
    ∷ (panorama, bytes "Panorama")
    ∷ (geo_panorama, bytes "GeoPanorama")
    ∷ (vector, bytes "Vector")
    ∷ (gaussian_splat, bytes "GaussianSplat")
    ∷ (tiles_3d, bytes "Tiles3D")
    ∷ []

-- The value of an `EntryType`, by which the map finds it.
abbrev pub code_of : EntryType → ℕ
code_of undefined_type = 0
code_of directory = 1
code_of generic = 2
code_of geo_image = 3
code_of geo_raster = 4
code_of point_cloud = 5
code_of image = 6
code_of drone_db_type = 7
code_of markdown = 8
code_of video = 9
code_of geo_video = 10
code_of model = 11
code_of panorama = 12
code_of geo_panorama = 13
code_of vector = 14
code_of gaussian_splat = 15
code_of tiles_3d = 16

abbrev pub found_name : EntryType → List (EntryType × Text) → Text
found_name t [] = bytes "?"
found_name t ((u, name) ∷ types) =
    let rest = found_name t types in if eqb (code_of u) (code_of t) then name else rest

unfoldable pub type_to_human : EntryType → Text
type_to_human t = found_name t type_mapper

abbrev pub found_type : Text → List (EntryType × Text) → EntryType
found_type wanted [] = undefined_type
found_type wanted ((u, name) ∷ types) =
    let rest = found_type wanted types in if same (lower name) wanted then u else rest

unfoldable pub type_from_human : Text → EntryType
type_from_human s = found_type (lower s) type_mapper

from_lower : (t : EntryType) → found_type (lower (type_to_human t)) type_mapper ≡ t
unfolding type_to_human same
from_lower undefined_type = refl
from_lower directory = refl
from_lower generic = refl
from_lower geo_image = refl
from_lower geo_raster = refl
from_lower point_cloud = refl
from_lower image = refl
from_lower drone_db_type = refl
from_lower markdown = refl
from_lower video = refl
from_lower geo_video = refl
from_lower model = refl
from_lower panorama = refl
from_lower geo_panorama = refl
from_lower vector = refl
from_lower gaussian_splat = refl
from_lower tiles_3d = refl

-- The name of a type, in whatever case its letters are, is read back as the type.
pub type_from_human-type_to_human :
    (t : EntryType) (s : Text) → lower s ≡ lower (type_to_human t) → type_from_human s ≡ t
unfolding type_from_human
type_from_human-type_to_human t s h = rw h (from_lower t)

abbrev type_of_code : ℕ → List (EntryType × Text) → EntryType
type_of_code n [] = undefined_type
type_of_code n ((u, name) ∷ types) =
    let rest = type_of_code n types in if eqb (code_of u) n then u else rest

type_of_code_of : (t : EntryType) → type_of_code (code_of t) type_mapper ≡ t
type_of_code_of undefined_type = refl
type_of_code_of directory = refl
type_of_code_of generic = refl
type_of_code_of geo_image = refl
type_of_code_of geo_raster = refl
type_of_code_of point_cloud = refl
type_of_code_of image = refl
type_of_code_of drone_db_type = refl
type_of_code_of markdown = refl
type_of_code_of video = refl
type_of_code_of geo_video = refl
type_of_code_of model = refl
type_of_code_of panorama = refl
type_of_code_of geo_panorama = refl
type_of_code_of vector = refl
type_of_code_of gaussian_splat = refl
type_of_code_of tiles_3d = refl

pub code_of-injective : (t u : EntryType) → code_of t ≡ code_of u → t ≡ u
code_of-injective t u h =
    sym (type_of_code_of t) ∙ ap (λ n. type_of_code n type_mapper) h ∙ type_of_code_of u
