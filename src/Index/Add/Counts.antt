-- ===== src/Index/Add/Counts.antt =====
-- How often a path stands in a list.
use drone_db.Base.{
  ℕ, ◌+◌, ◌≡◌, refl, Bool, true, false, List, [], ◌∷◌, ◌++◌, map, arith, Text, same,
}

abbrev pub one : Bool → ℕ
one true = 1
one false = 0

module _ {ℓ} {A : Type ℓ} (key : A → Text) (p : Text) where
  abbrev pub tally : List A → ℕ
  tally [] = 0
  tally (x ∷ xs) = one (same (key x) p) + tally xs

  pub tally-append : (xs ys : List A) → tally (xs ++ ys) ≡ tally xs + tally ys
  tally-append [] ys = omega arith
  tally-append (x ∷ xs) ys = omega (arith, tally-append xs ys)

pub tally-map {ℓ κ} :
    {A : Type ℓ} {B : Type κ} (key : B → Text) (f : A → B) (p : Text) (xs : List A)
    → tally key p (map f xs) ≡ tally (λ x. key (f x)) p xs
tally-map key f p [] = refl
tally-map key f p (x ∷ xs) = omega (arith, tally-map key f p xs)
