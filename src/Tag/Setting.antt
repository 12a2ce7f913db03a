-- ===== src/Tag/Setting.antt =====
-- A tag that is set is read again.
use drone_db.Base.{
  ℕ, ◌≡◌, refl, ◌⊎◌, inl, inr, invalid_args, Bool, true, false, ◌&&◌, Option, none, some, [], ◌∷◌,
  ◌++◌, map, Text, same_refl, bytes, eqb, all, arith, if◌then◌else◌, Bool-cases, Error, Result, ok,
  err, ok-injective, subst, ◌>>=◌, >>=-returns,
}
use drone_db.Meta.{is_blank}
use drone_db.Tag.{
  TagComponents, Url, is_slash, lower, strip_end, trim, split_last, is_component,
  validate_tag_component, protocol, has_protocol, registry_of, organization_in, url_text,
  parse_components, parse_split, parse_tag, tag,
}
use drone_db.Tag.RoundTrip.{IsRegistry, IsTag, printed_tags_parse}
use drone_db.Tag.Manager.{Json, or_created, stored, write_tag, get_tag, set_tag}

abbrev is_low : ℕ → Bool
is_low c = eqb (lower c) c

low-map : (s : Text) → all is_low (map lower s) ≡ true
unfolding all
low-map [] = refl
low-map (c ∷ s) = let here : is_low (lower c) ≡ true = ground arith in ground (arith, low-map s)

low-fixed : (s : Text) → all is_low s ≡ true → map lower s ≡ s
unfolding all
low-fixed [] h = refl
low-fixed (c ∷ s) h =
    let here : lower c ≡ c = ground arith in rw (here, low-fixed s (ground arith)) refl

low-append : (a s : Text) → all is_low a ≡ true → all is_low s ≡ true → all is_low (a ++ s) ≡ true
unfolding all
low-append [] s h k = k
low-append (c ∷ a) s h k = ground (arith, low-append a s)

low-strip_end : (p : ℕ → Bool) (s : Text) → all is_low s ≡ true → all is_low (strip_end p s) ≡ true
unfolding all strip_end
low-strip_end p [] h = refl
low-strip_end p (c ∷ s) h = elim (Bool-cases (is_blank (strip_end p s) && p c)) [
  | inl t ↦ rw t refl
  | inr f ↦ rw f (ground (arith, low-strip_end p s))
]

abbrev split_step : ℕ → Text → Option (Text × Text) → Option (Text × Text)
split_step c s none = if is_slash c then some ([], s) else none
split_step c s (some (before, after)) = some (c ∷ before, after)

-- Both parts are in lower case.
abbrev AreLow : Option (Text × Text) → Type 0
AreLow none = Unit
AreLow (some (a, b)) = (all is_low a ≡ true) × (all is_low b ≡ true)

split_step-AreLow :
    (c : ℕ) (s : Text) (o : Option (Text × Text))
    → is_low c ≡ true
    → all is_low s ≡ true
    → AreLow o
    → AreLow (split_step c s o)
unfolding all
split_step-AreLow c s none l h o = elim (Bool-cases (is_slash c)) [
  | inl t ↦ rw t (refl, h)
  | inr f ↦ rw f tt
]
split_step-AreLow c s (some (a, b)) l h (x, y) = (ground arith, y)

split_last-step : (c : ℕ) (s : Text) → split_last (c ∷ s) ≡ split_step c s (split_last s)
unfolding split_last
split_last-step c s =
    elim (split_last s)
      as (λ o.
        elim o [
          | some (before, after) ↦ some (c ∷ before, after)
          | none ↦ if is_slash c then some ([], s) else none
        ]
        ≡ split_step c s o) [ none ↦ refl | some p ↦ refl ]

split_last-AreLow : (s : Text) → all is_low s ≡ true → AreLow (split_last s)
unfolding all split_last
split_last-AreLow [] h = tt
split_last-AreLow (c ∷ s) h = rw (split_last-step c s) (
    split_step-AreLow c s (split_last s) (ground arith) (ground arith)
      (split_last-AreLow s (ground arith)))

organization_in-low :
    (s : Text) (o : Option (Text × Text)) → AreLow o → all is_low (organization_in s o).1 ≡ true
unfolding all
organization_in-low s none l = refl
organization_in-low s (some (a, b)) l = l.0

registry_of-low :
    (insecure : Bool) (s : Text) → all is_low s ≡ true → all is_low (registry_of insecure s) ≡ true
unfolding all
registry_of-low true s h = elim (Bool-cases (is_blank s)) [
  | inl t ↦ rw t refl
  | inr f ↦ rw f (elim (Bool-cases (has_protocol s)) [
    | inl t ↦ rw t h
    | inr g ↦ rw g (low-append (protocol true) s refl h)
  ])
]
registry_of-low false s h = elim (Bool-cases (is_blank s)) [
  | inl t ↦ rw t refl
  | inr f ↦ rw f (elim (Bool-cases (has_protocol s)) [
    | inl t ↦ rw t h
    | inr g ↦ rw g (low-append (protocol false) s refl h)
  ])
]

has_protocol-registry_of :
    (insecure : Bool) (s : Text) → has_protocol (registry_of insecure s) ≡ true
has_protocol-registry_of true s = ground arith
has_protocol-registry_of false s = ground arith

unless-ok :
    {A : Type 0} (b : Bool) (r : Result A) (a : A)
    → (if b then err invalid_args else r) ≡ ok a
    → r ≡ ok a
unless-ok true r a h = cc
unless-ok false r a h = h

validated : (s : Text) (x : Unit {0}) → validate_tag_component s ≡ ok x → is_component s ≡ true
unfolding validate_tag_component
validated s x h = ground arith

module _ (parse_url : Text → Result Url) (to_string : ℕ → Text)
    (normal : (r : Text) (u : Url)
      → has_protocol r ≡ true
      → map lower r ≡ r
      → parse_url r ≡ ok u
      → IsRegistry parse_url to_string (url_text parse_url to_string u)) where
  components-IsTag :
      (insecure : Bool) (dataset organization before : Text) (t : TagComponents)
      → all is_low before ≡ true
      → parse_components parse_url to_string insecure dataset (organization, before) ≡ ok t
      → IsTag parse_url to_string t
  components-IsTag insecure dataset organization before t l h =
      let both = validate_tag_component organization >>= (λ _. validate_tag_component dataset) in
      let (u, h1, h3) =
        >>=-returns (both >>= (λ _. parse_url (registry_of insecure before))) _
          (unless-ok (has_protocol organization) _ t h) in
      let (y, h2, p) = >>=-returns both _ h1 in
      let (x, o, d) = >>=-returns (validate_tag_component organization) _ h2 in
      subst (IsTag parse_url to_string) (ok-injective h3) (
        normal (registry_of insecure before) u (has_protocol-registry_of insecure before)
            (low-fixed (registry_of insecure before) (registry_of-low insecure before l)) p,
        validated organization x o,
        validated dataset y d,
      )

  split-IsTag :
      (insecure : Bool) (o : Option (Text × Text)) (t : TagComponents)
      → AreLow o
      → parse_split parse_url to_string insecure o ≡ ok t
      → IsTag parse_url to_string t
  split-IsTag insecure none t l h = cc
  split-IsTag insecure (some (before, dataset)) t l h =
      let inner = organization_in before (split_last before) in
      components-IsTag insecure dataset inner.0 inner.1 t
        (organization_in-low before (split_last before) (split_last-AreLow before l.0)) h

  parse_tag-IsTag :
      (insecure : Bool) (text : Text) (t : TagComponents)
      → parse_tag parse_url to_string insecure text ≡ ok t
      → IsTag parse_url to_string t
  unfolding parse_tag
  parse_tag-IsTag insecure text t h =
      split-IsTag insecure (split_last (strip_end is_slash (map lower (trim text)))) t
        (split_last-AreLow _ (low-strip_end is_slash _ (low-map (trim text)))) h

  read_back :
      (file : Option Json) (t : TagComponents)
      → IsTag parse_url to_string t
      → let file' = some (stored parse_url to_string (or_created file) t) in
        get_tag parse_url to_string file' ≡ (ok (tag t), file')
  unfolding get_tag
  read_back file t i =
      let parses = (printed_tags_parse parse_url to_string false t i).0 in
      rw (same_refl (bytes "tag"), parses) refl

  -- Where the parser's normal form of a lower-case URL is one: a tag that is set is what is read
  -- again, in its short form, and reading it does not change the file; a text that is no tag leaves
  -- the file as it was.
  pub set_then_get_tag :
      (text : Text) (file : Option Json)
      → let (r, file') = set_tag parse_url to_string text file in
        ((t : TagComponents) × (parse_tag parse_url to_string false text ≡ ok t)
          × (r ≡ ok tt)
          × (get_tag parse_url to_string file' ≡ (ok (tag t), file')))
        ⊎ ((e : Error) × (parse_tag parse_url to_string false text ≡ err e)
            × (r ≡ err e)
            × (file' ≡ file))
  unfolding set_tag
  set_then_get_tag text file = set (parse_tag parse_url to_string false text) refl
    where
      set :
          (p : Result TagComponents)
          → parse_tag parse_url to_string false text ≡ p
          → let (r, file') = write_tag parse_url to_string file p in
            ((t : TagComponents) × (p ≡ ok t)
              × (r ≡ ok tt)
              × (get_tag parse_url to_string file' ≡ (ok (tag t), file')))
            ⊎ ((e : Error) × (p ≡ err e) × (r ≡ err e) × (file' ≡ file))
      set (err e) h = inr (e, refl, refl, refl)
      set (ok t) h = inl (t, refl, refl, read_back file t (parse_tag-IsTag false text t h))
