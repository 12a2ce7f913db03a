-- ===== src/Tag/Tests.antt =====
-- A tag of the default registry and one of another, and what is refused.
use drone_db.Base.{
  ◌≡◌, refl, ℕ, true, false, Bool, map, subst, ok-injective, Text, same, bytes, all, Result, ok,
  err, invalid_args, if◌then◌else◌,
}
use drone_db.Tag.{
  TagComponents, Url, url_text, has_protocol, lower, default_registry, parse_tag, full_tag, tag,
  trim, ltrim, strip_end, split_last, is_component, validate_tag_component,
}
use drone_db.Tag.RoundTrip.{IsRegistry, printed_tags_parse}

abbrev digits : ℕ → Text
digits n = bytes "5000"

-- a parser that knows two URLs
abbrev parse_known : Text → Result Url
parse_known s =
    if same s (bytes "https://hub.dronedb.app")
    then ok (record { scheme = bytes "https"; host = default_registry; port = 443 })
    else if same s (bytes "http://localhost:5000")
    then ok (record { scheme = bytes "http"; host = bytes "localhost"; port = 5000 })
    else err invalid_args

abbrev hub : TagComponents
hub = record {
  registry_url = bytes "https://hub.dronedb.app";
  organization = bytes "my-org";
  dataset = bytes "d1";
}

printed_tags_parse_example :
    (parse_tag parse_known digits true (full_tag hub) ≡ ok hub)
    × (parse_tag parse_known digits false (tag hub) ≡ ok hub)
unfolding same is_component all
printed_tags_parse_example = printed_tags_parse parse_known digits true hub (
  (refl, refl, record { scheme = bytes "https"; host = default_registry; port = 443 }, refl, refl),
  refl,
  refl,
)

short_tag : tag hub ≡ bytes "my-org/d1"
unfolding tag same
short_tag = refl

spaced_tag :
    parse_tag parse_known digits false (bytes " HTTP://localhost:5000/My-Org/D1/ ")
    ≡ ok (record {
      registry_url = bytes "http://localhost:5000";
      organization = bytes "my-org";
      dataset = bytes "d1";
    })
unfolding parse_tag trim ltrim strip_end split_last validate_tag_component is_component all same
spaced_tag = refl

no_organization : parse_tag parse_known digits false (bytes "d1") ≡ err invalid_args
unfolding parse_tag trim ltrim strip_end split_last
no_organization = refl

abbrev hub_url : Url
hub_url = record { scheme = bytes "https"; host = default_registry; port = 443 }

abbrev local_url : Url
local_url = record { scheme = bytes "http"; host = bytes "localhost"; port = 5000 }

hub-IsRegistry : IsRegistry parse_known digits (url_text parse_known digits hub_url)
unfolding same
hub-IsRegistry = (refl, refl, hub_url, refl, refl)

local-IsRegistry : IsRegistry parse_known digits (url_text parse_known digits local_url)
unfolding same
local-IsRegistry = (refl, refl, local_url, refl, refl)

known_url :
    (r : Text) (u : Url)
    → has_protocol r ≡ true
    → map lower r ≡ r
    → parse_known r ≡ ok u
    → IsRegistry parse_known digits (url_text parse_known digits u)
known_url r u h l p =
    pick (same r (bytes "https://hub.dronedb.app")) (same r (bytes "http://localhost:5000")) p
  where
    pick :
        (a b : Bool)
        → (if a then ok hub_url else if b then ok local_url else err invalid_args) ≡ ok u
        → IsRegistry parse_known digits (url_text parse_known digits u)
    pick true b e =
        subst (λ x. IsRegistry parse_known digits (url_text parse_known digits x)) (ok-injective e)
          hub-IsRegistry
    pick false true e =
        subst (λ x. IsRegistry parse_known digits (url_text parse_known digits x)) (ok-injective e)
          local-IsRegistry
    pick false false e = cc
