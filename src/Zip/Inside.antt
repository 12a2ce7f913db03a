-- ===== src/Zip/Inside.antt =====
-- Where the name of an archive's entry leads.
use drone_db.Base.{
  ℕ, ◌≡◌, refl, sym, ◌∙◌, ◌⊎◌, inl, inr, Bool, true, false, ◌||◌, Bool-cases, List, [], ◌∷◌, ◌++◌,
  map, Text, same, same_iff, bytes, eqb, any, arith, if◌then◌else◌, ok,
}
use mathlib.Core.List.{append_assoc}
use drone_db.Build.Pending.{on_first_line}
use drone_db.Zip.{segments, slashed, is_absolute, climbs, ensure_safe_zip_entry}

abbrev parent : List Text → List Text
parent [] = []
parent (n ∷ p) = p

-- The file system follows a path from a folder, its names the innermost first.
unfoldable pub resolve : List Text → List Text → List Text
resolve p [] = p
resolve p (s ∷ ss) =
    let same_folder = resolve p ss in
    let above = resolve (parent p) ss in
    let within = resolve (s ∷ p) ss in
    if same s [] || same s (bytes ".")
    then same_folder
    else if same s (bytes "..")
    then above
    else within

-- A name that begins with a slash starts over at the root.
abbrev pub target : List Text → Text → List Text
target outdir name = resolve (if is_absolute name then [] else outdir) (segments name)

abbrev pub IsInside : List Text → List Text → Type 0
IsInside outdir path = (names : List Text) × (path ≡ names ++ outdir)

resolve-IsInside : (p : List Text) (ss : List Text) → climbs ss ≡ false → IsInside p (resolve p ss)
unfolding resolve any
resolve-IsInside p [] h = ([], refl)
resolve-IsInside p (s ∷ ss) h =
    let (within, e) = resolve-IsInside (s ∷ p) ss (ground arith) in
    let here = resolve-IsInside p ss (ground arith) in
    let down : IsInside p (resolve (s ∷ p) ss) =
      (within ++ s ∷ [], e ∙ sym (append_assoc within (s ∷ []) p)) in
    let plain : same s (bytes "..") ≡ false = ground arith in
    elim (Bool-cases (same s [] || same s (bytes "."))) [
      | inl a ↦ rw a here
      | inr a ↦ rw (a, plain) down
    ]

abbrev first : List Text → Text
first [] = []
first (s ∷ ss) = s

abbrev others : List Text → List Text
others [] = []
others (s ∷ ss) = ss

-- A way with more separators has the same names where they are of dots.
record Finer (ss ts : List Text) : Type 0 where
  is_empty : first ss ≡ [] → first ts ≡ []
  is_dot : first ss ≡ bytes "." → first ts ≡ bytes "."
  is_dots : first ss ≡ bytes ".." → first ts ≡ bytes ".."
  keeps : climbs (others ss) ≡ true → climbs (others ts) ≡ true

climbs-first :
    (ss : List Text) → climbs ss ≡ true → (first ss ≡ bytes "..") ⊎ (climbs (others ss) ≡ true)
unfolding any
climbs-first [] h = cc
climbs-first (s ∷ ss) h = elim (Bool-cases (same s (bytes ".."))) [
  | inl e ↦ inl ((same_iff s (bytes "..")).0 e)
  | inr e ↦ inr (ground arith)
]

climbs_again :
    (ss : List Text) → (first ss ≡ bytes "..") ⊎ (climbs (others ss) ≡ true) → climbs ss ≡ true
unfolding any
climbs_again [] (inl e) = cc
climbs_again [] (inr e) = e
climbs_again (s ∷ ss) (inl e) = ground (arith, (same_iff s (bytes "..")).1 e)
climbs_again (s ∷ ss) (inr e) = ground (arith, e)

Finer-climbs : (ss ts : List Text) → Finer ss ts → climbs ss ≡ true → climbs ts ≡ true
Finer-climbs ss ts f h = elim (climbs-first ss h) [
  | inl e ↦ climbs_again ts (inl (f.is_dots e))
  | inr e ↦ climbs_again ts (inr (f.keeps e))
]

first-on_first_line : (c : ℕ) (ss : List Text) → first (on_first_line c ss) ≡ c ∷ first ss
first-on_first_line c [] = refl
first-on_first_line c (s ∷ ss) = refl

others-on_first_line : (c : ℕ) (ss : List Text) → others (on_first_line c ss) ≡ others ss
others-on_first_line c [] = refl
others-on_first_line c (s ∷ ss) = refl

on_both :
    (c : ℕ) (ss ts : List Text) → Finer ss ts → Finer (on_first_line c ss) (on_first_line c ts)
on_both c ss ts f = record {
  is_empty = rw (first-on_first_line c ss) (λ e. cc);
  is_dot =
      rw (first-on_first_line c ss, first-on_first_line c ts)
        (λ e. let rest : first ss ≡ [] = cc in let same_rest = f.is_empty rest in cc);
  is_dots =
      rw (first-on_first_line c ss, first-on_first_line c ts)
        (λ e. let rest : first ss ≡ bytes "." = cc in let same_rest = f.is_dot rest in cc);
  keeps = rw (others-on_first_line c ss, others-on_first_line c ts) f.keeps;
}

on_new : (c : ℕ) (ss ts : List Text) → c ≡ 92 → Finer ss ts → Finer (on_first_line c ss) ([] ∷ ts)
on_new c ss ts b f = record {
  is_empty = λ e. refl;
  is_dot = rw (first-on_first_line c ss) (λ e. let h : c ≡ 46 = cc in ground (arith, h, b));
  is_dots = rw (first-on_first_line c ss) (λ e. let h : c ≡ 46 = cc in ground (arith, h, b));
  keeps = rw (others-on_first_line c ss) (λ e. climbs_again ts (inr (f.keeps e)));
}

on_slash : (ss ts : List Text) → Finer ss ts → Finer ([] ∷ ss) ([] ∷ ts)
on_slash ss ts f = record {
  is_empty = λ e. refl;
  is_dot = λ e. cc;
  is_dots = λ e. cc;
  keeps = Finer-climbs ss ts f;
}

abbrev put_char : Bool → ℕ → List Text → List Text
put_char b c ss = if b then [] ∷ ss else on_first_line c ss

put_char-Finer :
    (c : ℕ) (ss ts : List Text)
    → Finer ss ts
    → Finer (put_char (eqb c 47) c ss) (put_char (eqb (slashed c) 47) (slashed c) ts)
put_char-Finer c ss ts f = elim (Bool-cases (eqb c 47)) [
  | inl e ↦ let as_is : slashed c ≡ c = ground arith in rw (as_is, e) (on_slash ss ts f)
  | inr e ↦ elim (Bool-cases (eqb c 92)) [
    | inl b ↦ let char : c ≡ 92 = ground arith in rw (char) (on_new 92 ss ts refl f)
    | inr b ↦ let as_is : slashed c ≡ c = ground arith in rw (as_is, e) (on_both c ss ts f)
  ]
]

segments-Finer : (s : Text) → Finer (segments s) (segments (map slashed s))
unfolding segments
segments-Finer [] = record { is_empty = λ e. e; is_dot = λ e. e; is_dots = λ e. e; keeps = λ e. e }
segments-Finer (c ∷ s) = put_char-Finer c (segments s) (segments (map slashed s)) (segments-Finer s)

slashed-is_absolute : (s : Text) → is_absolute s ≡ true → is_absolute (map slashed s) ≡ true
slashed-is_absolute [] h = cc
slashed-is_absolute (c ∷ s) h = ground arith

safe_names :
    (escapes : Text → Bool) (name : Text)
    → ensure_safe_zip_entry escapes name ≡ ok tt
    → (is_absolute (map slashed name) ≡ false) × (climbs (segments (map slashed name)) ≡ false)
unfolding ensure_safe_zip_entry
safe_names escapes name h = (ground arith, ground arith)

-- A name that `ensureSafeZipEntry` accepts leads, below a folder, to what is in that folder, whatever the
-- test of the resolved path says: as a file system reads the name, with backslashes as they are.
pub accepted_names-IsInside :
    (escapes : Text → Bool) (outdir : List Text) (name : Text)
    → ensure_safe_zip_entry escapes name ≡ ok tt
    → IsInside outdir (target outdir name)
accepted_names-IsInside escapes outdir name h =
    let (relative, level) = safe_names escapes name h in
    let own : is_absolute name ≡ false = ground (arith, slashed-is_absolute name, relative) in
    let down : climbs (segments name) ≡ false = ground (
      arith,
      level,
      Finer-climbs (segments name) (segments (map slashed name)) (segments-Finer name),
    ) in
    rw own (resolve-IsInside outdir (segments name) down)
