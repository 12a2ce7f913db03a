-- ===== src/Tag/RoundTrip.antt =====
-- A tag that is printed is parsed again.
use drone_db.Base.{
  ℕ, ◌≡◌, refl, sym, ap, ◌∙◌, ◌⊎◌, inl, inr, Bool, true, false, none, some, [], ◌∷◌, ◌++◌, map,
  Text, same, same_iff, bytes, all, arith, Bool-cases, Result, ok,
}
use mathlib.Core.List.{append_assoc}
use drone_db.Meta.{is_blank}
use drone_db.Remove.{starts_with}
use drone_db.Tag.{
  TagComponents, Url, is_slash, is_space, lower, ltrim, strip_end, trim, split_last, is_tag_char,
  is_component, validate_tag_component, default_registry, protocol, has_protocol, registry_of,
  organization_of, url_text, parse_components, parse_tag, full_tag, tag,
}

-- a text of characters of a tag
abbrev pub is_plain : Text → Bool
is_plain s = all is_tag_char s

is_component-plain : (s : Text) → is_component s ≡ true → (is_plain s ≡ true) × (is_blank s ≡ false)
unfolding is_component all
is_component-plain [] h = cc
is_component-plain (c ∷ s) h = (ground arith, refl)

split_last-plain : (s : Text) → is_plain s ≡ true → split_last s ≡ none
unfolding split_last all
split_last-plain [] h = refl
split_last-plain (c ∷ s) h = rw (split_last-plain s (ground arith)) (ground arith)

split_last-append : (a s : Text) → is_plain s ≡ true → split_last (a ++ b'/' ∷ s) ≡ some (a, s)
unfolding split_last
split_last-append [] s h = rw (split_last-plain s h) refl
split_last-append (c ∷ a) s h = rw (split_last-append a s h) refl

lower-plain : (s : Text) → is_plain s ≡ true → map lower s ≡ s
unfolding all
lower-plain [] h = refl
lower-plain (c ∷ s) h =
    let here : lower c ≡ c = ground arith in rw (here, lower-plain s (ground arith)) refl

strip_end-plain :
    (p : ℕ → Bool) (s : Text)
    → ((c : ℕ) → is_tag_char c ≡ true → p c ≡ false)
    → is_plain s ≡ true
    → strip_end p s ≡ s
unfolding strip_end all
strip_end-plain p [] q h = refl
strip_end-plain p (c ∷ s) q h =
    rw (strip_end-plain p s q (ground arith), q c (ground arith)) (ground arith)

is_blank-append : (a s : Text) → is_blank s ≡ false → is_blank (a ++ s) ≡ false
is_blank-append [] s h = h
is_blank-append (c ∷ a) s h = refl

strip_end-append :
    (p : ℕ → Bool) (a s : Text)
    → ((c : ℕ) → is_tag_char c ≡ true → p c ≡ false)
    → is_plain s ≡ true
    → is_blank s ≡ false
    → strip_end p (a ++ b'/' ∷ s) ≡ a ++ b'/' ∷ s
unfolding strip_end
strip_end-append p [] s q h n = rw (strip_end-plain p s q h, n) refl
strip_end-append p (c ∷ a) s q h n =
    rw (strip_end-append p a s q h n, is_blank-append a (b'/' ∷ s) refl) refl

map-append : (f : ℕ → ℕ) (a s : Text) → map f (a ++ s) ≡ map f a ++ map f s
map-append f [] s = refl
map-append f (c ∷ a) s = ap (λ x. f c ∷ x) (map-append f a s)

starts_with-plain : (p s : Text) → is_plain s ≡ true → starts_with p s ≡ true → is_plain p ≡ true
unfolding all
starts_with-plain [] s h k = refl
starts_with-plain (c ∷ p) [] h k = cc
starts_with-plain (c ∷ p) (d ∷ s) h k = ground (arith, starts_with-plain p s)

has_protocol-plain : (s : Text) → is_plain s ≡ true → has_protocol s ≡ false
unfolding all
has_protocol-plain s h =
    ground (arith, starts_with-plain (bytes "http://") s, starts_with-plain (bytes "https://") s)

ltrim-plain : (a s : Text) → is_plain a ≡ true → is_blank a ≡ false → ltrim (a ++ s) ≡ a ++ s
unfolding ltrim all
ltrim-plain [] s h n = cc
ltrim-plain (c ∷ a) s h n = let no_space : is_space c ≡ false = ground arith in rw no_space refl

ltrim-protocol : (a s : Text) → has_protocol a ≡ true → ltrim (a ++ s) ≡ a ++ s
unfolding ltrim
ltrim-protocol [] s h = cc
ltrim-protocol (c ∷ a) s h = let no_space : is_space c ≡ false = ground arith in rw no_space refl

has_protocol-some : (r : Text) → has_protocol r ≡ true → is_blank r ≡ false
has_protocol-some [] h = cc
has_protocol-some (c ∷ r) h = refl

registry-protocol :
    (insecure : Bool) (r : Text) → has_protocol r ≡ true → registry_of insecure r ≡ r
registry-protocol insecure [] h = cc
registry-protocol insecure (c ∷ r) h = rw h refl

-- The text is not changed before it is split.
cleaned :
    (a s : Text)
    → ltrim (a ++ b'/' ∷ s) ≡ a ++ b'/' ∷ s
    → map lower a ≡ a
    → is_component s ≡ true
    → split_last (strip_end is_slash (map lower (trim (a ++ b'/' ∷ s)))) ≡ some (a, s)
unfolding trim
cleaned a s l m c =
    let (plain, some_byte) = is_component-plain s c in
    let lowered : map lower (a ++ b'/' ∷ s) ≡ a ++ b'/' ∷ s =
      map-append lower a (b'/' ∷ s) ∙ rw (m, lower-plain s plain) refl in
    rw
      (
        l,
        strip_end-append is_space a s (λ x h. ground arith) plain some_byte,
        lowered,
        strip_end-append is_slash a s (λ x h. ground arith) plain some_byte,
      )
      (split_last-append a s plain)

module _ (parse_url : Text → Result Url) (to_string : ℕ → Text) where
  -- A registry's URL in lower case, that the parser takes and that is its normal form.
  abbrev pub IsRegistry : Text → Type 0
  IsRegistry r =
      (has_protocol r ≡ true)
      × (map lower r ≡ r)
      × (u : Url) × (parse_url r ≡ ok u)
      × (url_text parse_url to_string u ≡ r)

  -- a tag of a registry, with an organization and a dataset that are valid
  abbrev pub IsTag : TagComponents → Type 0
  IsTag t =
      IsRegistry t.registry_url
      × (is_component t.organization ≡ true)
      × (is_component t.dataset ≡ true)

  components :
      (insecure : Bool) (t : TagComponents) (before : Text)
      → IsTag t
      → registry_of insecure before ≡ t.registry_url
      → parse_components parse_url to_string insecure t.dataset (t.organization, before) ≡ ok t
  unfolding validate_tag_component
  components insecure t before ((_, _, u, parsed, text), o, d) r =
      let (plain, some_byte) = is_component-plain t.organization o in
      let (_, some_byte') = is_component-plain t.dataset d in
      rw (has_protocol-plain t.organization plain, some_byte, o, some_byte', d, r, parsed)
        (ap (λ x. ok (record t { registry_url = x })) text)

  -- A text that is clean up to its last slash.
  parsed_text :
      (insecure : Bool) (t : TagComponents) (a before : Text)
      → IsTag t
      → ltrim (a ++ b'/' ∷ t.dataset) ≡ a ++ b'/' ∷ t.dataset
      → map lower a ≡ a
      → organization_of a ≡ (t.organization, before)
      → registry_of insecure before ≡ t.registry_url
      → parse_tag parse_url to_string insecure (a ++ b'/' ∷ t.dataset) ≡ ok t
  unfolding parse_tag
  parsed_text insecure t a before i l m o r =
      rw (cleaned a t.dataset l m i.2, o) (components insecure t before i r)

  abbrev with_url : TagComponents → Text
  with_url t = t.registry_url ++ b'/' ∷ t.organization

  with_url-parses :
      (insecure : Bool) (t : TagComponents)
      → IsTag t
      → parse_tag parse_url to_string insecure (with_url t ++ b'/' ∷ t.dataset) ≡ ok t
  with_url-parses insecure t (r, o, d) =
      let (plain, some_byte) = is_component-plain t.organization o in
      let assoc = append_assoc t.registry_url (b'/' ∷ t.organization) (b'/' ∷ t.dataset) in
      parsed_text insecure t (with_url t) t.registry_url (r, o, d)
        (rw assoc (ltrim-protocol t.registry_url (b'/' ∷ t.organization ++ b'/' ∷ t.dataset) r.0))
        (map-append lower t.registry_url (b'/' ∷ t.organization)
          ∙ rw (r.1, lower-plain t.organization plain) refl)
        (rw (organization_of, split_last-append t.registry_url t.organization plain) refl)
        (registry-protocol insecure t.registry_url r.0)

  without_url-parses :
      (t : TagComponents)
      → IsTag t
      → protocol false ++ default_registry ≡ t.registry_url
      → parse_tag parse_url to_string false (t.organization ++ b'/' ∷ t.dataset) ≡ ok t
  without_url-parses t (r, o, d) e =
      let (plain, some_byte) = is_component-plain t.organization o in
      parsed_text false t t.organization [] (r, o, d)
        (ltrim-plain t.organization (b'/' ∷ t.dataset) plain some_byte)
        (lower-plain t.organization plain)
        (rw (organization_of, split_last-plain t.organization plain) refl) e

  full_tag-with_url : (t : TagComponents) → IsTag t → full_tag t ≡ with_url t ++ b'/' ∷ t.dataset
  unfolding full_tag
  full_tag-with_url t (r, o, d) =
      let (_, some_byte) = is_component-plain t.organization o in
      let joined =
        ap (λ x. x ++ bytes "/" ++ t.dataset)
          (append_assoc t.registry_url (bytes "/") t.organization) in
      rw (some_byte, has_protocol-some t.registry_url r.0)
        (joined ∙ append_assoc (with_url t) (bytes "/") t.dataset)

  -- What is printed, when the registry is left out and when not.
  tag-cases :
      (t : TagComponents)
      → IsTag t
      → (tag t ≡ full_tag t)
        ⊎ ((tag t ≡ t.organization ++ b'/' ∷ t.dataset)
            × (protocol false ++ default_registry ≡ t.registry_url))
  unfolding tag full_tag
  tag-cases t (r, o, d) =
      let (_, some_byte) = is_component-plain t.organization o in
      let shown = has_protocol-some t.registry_url r.0 in
      elim (Bool-cases (same t.registry_url (protocol false ++ default_registry))) [
        | inl s ↦ inr (
          rw (some_byte, shown, s) (append_assoc t.organization (bytes "/") t.dataset),
          sym ((same_iff t.registry_url (protocol false ++ default_registry)).0 s),
        )
        | inr s ↦ inl (rw (shown, s) refl)
      ]

  -- A tag whose registry's URL begins with a protocol, is in lower case and is what the parser
  -- makes of it, and whose organization and dataset are valid, is parsed from what `fullTag`
  -- prints, whatever protocol is the default, and from what `tag` prints, with the secure one.
  pub printed_tags_parse :
      (insecure : Bool) (t : TagComponents)
      → IsTag t
      → (parse_tag parse_url to_string insecure (full_tag t) ≡ ok t)
        × (parse_tag parse_url to_string false (tag t) ≡ ok t)
  printed_tags_parse insecure t i =
      let full : (b : Bool) → parse_tag parse_url to_string b (full_tag t) ≡ ok t =
        λ b. rw (full_tag-with_url t i) (with_url-parses b t i) in
      (
        full insecure,
        elim (tag-cases t i) [
          | inl e ↦ rw e (full false)
          | inr (e, r) ↦ rw e (without_url-parses t i r)
        ],
      )
