-- ===== src/Tag.antt =====
-- library/registryutils.cpp, with `trim` and `toLower` of include/utils.h: a tag names a registry, an
-- organization and a dataset.
-- `parse_url` is homer6's URL parser (include/url.h). The letters are those of the C locale.
pub mod RoundTrip
pub mod Manager
pub mod Setting
mod Tests
use drone_db.Base.{
  ℕ, ◌+◌, Bool, true, false, ◌&&◌, ◌||◌, not, Option, none, some, List, [], ◌∷◌, ◌++◌, map, Text,
  same, bytes, eqb, leb, all, length, if◌then◌else◌, Result, ok, err, invalid_args, ◌>>=◌,
}
use drone_db.Remove.{starts_with}
use drone_db.Meta.{is_blank}

pub record TagComponents : Type 0 where
  pub registry_url : Text
  pub organization : Text
  pub dataset : Text

pub record Url : Type 0 where
  pub scheme : Text
  pub host : Text
  pub port : ℕ

abbrev pub is_slash : ℕ → Bool
is_slash c = eqb c b'/'

abbrev pub is_space : ℕ → Bool
is_space c = eqb c 32 || (leb 9 c && leb c 13)

abbrev pub lower : ℕ → ℕ
lower c = if leb b'A' c && leb c b'Z' then c + 32 else c

unfoldable pub ltrim : Text → Text
ltrim [] = []
ltrim (c ∷ s) = let rest = ltrim s in if is_space c then rest else c ∷ s

-- what is left without the bytes of `p` at the end
unfoldable pub strip_end : (ℕ → Bool) → Text → Text
strip_end p [] = []
strip_end p (c ∷ s) = if is_blank (strip_end p s) && p c then [] else c ∷ strip_end p s

unfoldable pub trim : Text → Text
unfolding ltrim strip_end
trim s = strip_end is_space (ltrim s)

-- `rfind('/')`: what is before the last slash and what is after it
unfoldable pub split_last : Text → Option (Text × Text)
split_last [] = none
split_last (c ∷ s) = elim (split_last s) [
  | some (before, after) ↦ some (c ∷ before, after)
  | none ↦ if is_slash c then some ([], s) else none
]

abbrev pub is_alphanumeric : ℕ → Bool
is_alphanumeric c = (leb b'a' c && leb c b'z') || (leb b'0' c && leb c b'9')

abbrev pub is_tag_char : ℕ → Bool
is_tag_char c = is_alphanumeric c || eqb c b'_' || eqb c b'-'

-- ^[a-z0-9][a-z0-9_-]{1,128}$
unfoldable pub is_component : Text → Bool
is_component [] = false
is_component (c ∷ s) =
    is_alphanumeric c && all is_tag_char s && leb 1 (length s) && leb (length s) 128

unfoldable pub validate_tag_component : Text → Result (Unit {0})
unfolding is_component
validate_tag_component s =
    if is_blank s then err invalid_args else if is_component s then ok tt else err invalid_args

abbrev pub default_registry : Text
default_registry = bytes "hub.dronedb.app"

abbrev pub protocol : Bool → Text
protocol insecure = if insecure then bytes "http://" else bytes "https://"

abbrev pub has_protocol : Text → Bool
has_protocol s = starts_with (bytes "http://") s || starts_with (bytes "https://") s

abbrev pub registry_of : Bool → Text → Text
registry_of insecure t =
    if is_blank t
    then protocol insecure ++ default_registry
    else if has_protocol t
    then t
    else protocol insecure ++ t

-- The organization, and the text before it.
abbrev pub organization_in : Text → Option (Text × Text) → Text × Text
organization_in t none = (t, [])
organization_in t (some (before, after)) = (after, before)

abbrev pub organization_of : Text → Text × Text
organization_of t = organization_in t (split_last t)

module _ (parse_url : Text → Result Url) (to_string : ℕ → Text) where
  abbrev pub other_port : Url → Bool
  other_port u =
      (same u.scheme (bytes "http") && not (eqb u.port 80))
      || (same u.scheme (bytes "https") && not (eqb u.port 443))

  -- without the path of the URL
  abbrev pub url_text : Url → Text
  url_text u =
      u.scheme
      ++ bytes "://"
      ++ u.host
      ++ (if other_port u then bytes ":" ++ to_string u.port else [])

  abbrev pub parse_components : Bool → Text → Text × Text → Result TagComponents
  parse_components insecure dataset (organization, before) =
      if has_protocol organization
      then err invalid_args
      else validate_tag_component organization
        >>= (λ _. validate_tag_component dataset)
        >>= (λ _. parse_url (registry_of insecure before))
        >>= (λ u.
            ok (record {
              registry_url = url_text u;
              organization = organization;
              dataset = dataset;
            }))

  abbrev pub parse_split : Bool → Option (Text × Text) → Result TagComponents
  parse_split insecure none = err invalid_args
  parse_split insecure (some (before, dataset)) =
      parse_components insecure dataset (organization_of before)

  unfoldable pub parse_tag : Bool → Text → Result TagComponents
  unfolding trim strip_end split_last validate_tag_component
  parse_tag insecure tag =
      parse_split insecure (split_last (strip_end is_slash (map lower (trim tag))))

abbrev pub with_registry : Text → TagComponents → Text
with_registry url t =
    if is_blank t.organization && is_blank t.dataset
    then []
    else url ++ t.organization ++ bytes "/" ++ t.dataset

unfoldable pub full_tag : TagComponents → Text
full_tag t = with_registry (if is_blank t.registry_url then [] else t.registry_url ++ bytes "/") t

-- The default registry is left out.
unfoldable pub tag : TagComponents → Text
tag t =
    with_registry
      (if is_blank t.registry_url || same t.registry_url (protocol false ++ default_registry)
        then []
        else t.registry_url ++ bytes "/")
      t

abbrev pub tag_without_url : TagComponents → Text
tag_without_url t =
    if not (is_blank t.organization) && not (is_blank t.dataset)
    then t.organization ++ bytes "/" ++ t.dataset
    else []
