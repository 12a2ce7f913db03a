-- ===== src/Walk/Reached.antt =====
-- What a walk meets is what names lead to; and a search for `.ddb` in a text.
use drone_db.Base.{
  ◌≡◌, refl, sym, ap, ◌↔◌, inl, inr, true, false, ◌&&◌, Bool-cases, not, eqb_iff, List, [], ◌∷◌,
  ◌++◌, Text, same, same_refl, any, all, arith, subst,
}
use drone_db.Remove.{starts_with}
use drone_db.Walk.{Dir, Forest, empty, with_file, with_folder, ddb_folder, same_dir, walk}
use drone_db.Walk.Closed.{same_dir_iff}
use drone_db.Walk.Complete.{
  leads, descend, is_plain, walked, walked-file, walked-folder, walk-leads,
}
use drone_db.Walk.Expand.{contains_ddb}

-- The path is what names from a folder on lead to, none of them `.ddb`.
abbrev pub IsReached : Forest → Dir → Dir → Type 0
IsReached f p q = (ns : List Text) × (leads f ns ≡ true) × (is_plain ns ≡ true) × (q ≡ descend ns p)

leads_nothing : (f : Forest) → leads f [] ≡ false
unfolding leads
leads_nothing empty = refl
leads_nothing (with_file n rest) = refl
leads_nothing (with_folder n inside rest) = refl

leads_file :
    (n : Text) (rest : Forest) (ns : List Text)
    → leads rest ns ≡ true
    → leads (with_file n rest) ns ≡ true
unfolding leads
leads_file n rest [] h = ground (arith, h, leads_nothing rest)
leads_file n rest (m ∷ ms) h = ground (arith, h)

leads_folder :
    (n : Text) (inside rest : Forest) (ns : List Text)
    → leads rest ns ≡ true
    → leads (with_folder n inside rest) ns ≡ true
unfolding leads
leads_folder n inside rest [] h = ground (arith, h, leads_nothing rest)
leads_folder n inside rest (m ∷ ms) h = ground (arith, h)

walk-IsReached : (f : Forest) (p q : Dir) → walked q (walk f p) ≡ true → IsReached f p q
unfolding leads walk any all
walk-IsReached empty p q h = cc
walk-IsReached (with_file n rest) p q h =
    elim (Bool-cases (not (same n ddb_folder) && same_dir (n ∷ p) q)) [
      | inl e ↦ (
        n ∷ [],
        ground (arith, same_refl n),
        ground (arith, e),
        sym ((same_dir_iff (n ∷ p) q).0 (ground (arith, e))),
      )
      | inr e ↦
          let (ns, l, plain, there) =
            walk-IsReached rest p q (ground (arith, e, h, walked-file n rest p q)) in
          (ns, leads_file n rest ns l, plain, there)
    ]
walk-IsReached (with_folder n inside rest) p q h =
    elim (Bool-cases (not (same n ddb_folder) && same_dir (n ∷ p) q)) [
      | inl e ↦ (
        n ∷ [],
        ground (arith, same_refl n),
        ground (arith, e),
        sym ((same_dir_iff (n ∷ p) q).0 (ground (arith, e))),
      )
      | inr e ↦ elim (Bool-cases (not (same n ddb_folder) && walked q (walk inside (n ∷ p)))) [
        | inl b ↦
            let (ns, l, plain, there) = walk-IsReached inside (n ∷ p) q (ground (arith, b)) in
            (n ∷ ns, ground (arith, same_refl n, l), ground (arith, plain, b), there)
        | inr b ↦
            let (ns, l, plain, there) =
              walk-IsReached rest p q (ground (arith, e, b, h, walked-folder n inside rest p q)) in
            (ns, leads_folder n inside rest ns l, plain, there)
      ]
    ]

pub walked_iff : (f : Forest) (p q : Dir) → (walked q (walk f p) ≡ true) ↔ IsReached f p q
walked_iff f p q = (
  walk-IsReached f p q,
  λ r. subst (λ x. walked x (walk f p) ≡ true) (sym r.3) (walk-leads f p r.0 r.1 r.2),
)

starts-append : (from s : Text) → starts_with from (from ++ s) ≡ true
starts-append [] s = refl
starts-append (c ∷ from) s = ground (arith, (eqb_iff c c).1 refl, starts-append from s)

starts_then : (from s : Text) → starts_with from s ≡ true → (r : Text) × (s ≡ from ++ r)
starts_then [] s h = (s, refl)
starts_then (c ∷ from) [] h = cc
starts_then (c ∷ from) (d ∷ s) h =
    let (r, e) = starts_then from s (ground (arith, h)) in
    let same_byte : c ≡ d = (eqb_iff c d).0 (ground (arith, h)) in (r, λ i. sym same_byte i ∷ e i)

-- The text has `.ddb` somewhere.
abbrev pub HasDdb : Text → Type 0
HasDdb s = (l : Text) × (r : Text) × (s ≡ l ++ ddb_folder ++ r)

contains_ddb_sound : (s : Text) → contains_ddb s ≡ true → HasDdb s
unfolding contains_ddb
contains_ddb_sound [] h = cc
contains_ddb_sound (c ∷ s) h = elim (Bool-cases (starts_with ddb_folder (c ∷ s))) [
  | inl e ↦ let (r, there) = starts_then ddb_folder (c ∷ s) e in ([], r, there)
  | inr e ↦
      let (l, r, there) = contains_ddb_sound s (ground (arith, e, h)) in
      (c ∷ l, r, ap (λ x. c ∷ x) there)
]

contains_ddb_complete : (l r : Text) → contains_ddb (l ++ ddb_folder ++ r) ≡ true
unfolding contains_ddb
contains_ddb_complete [] r = ground (arith, starts-append ddb_folder r)
contains_ddb_complete (c ∷ l) r = ground (arith, contains_ddb_complete l r)

pub contains_ddb_iff : (s : Text) → (contains_ddb s ≡ true) ↔ HasDdb s
contains_ddb_iff s = (
  contains_ddb_sound s,
  λ h. subst (λ x. contains_ddb x ≡ true) (sym h.2) (contains_ddb_complete h.0 h.1),
)
