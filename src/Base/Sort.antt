-- ===== src/Base/Sort.antt =====
-- `std::sort` by a comparison: the elements in order. The model keeps equal elements in place.
use drone_db.Base.Tests.{if◌then◌else◌, if_split, Bool-cases}
use drone_db.Base.Lists.{any, keep, All, All-keep}
use mathlib.Core.Path.{◌≡◌, refl}
use mathlib.Core.Logic.{inl, inr}
use mathlib.Core.Bool.{Bool, true, false, ◌||◌}
use mathlib.Core.List.{List, [], ◌∷◌}
use native.Mathlib.Omega.{arith}

module _ {ℓ} {A : Type ℓ} (before : A → A → Bool) where
  unfoldable pub insert : A → List A → List A
  insert x [] = x ∷ []
  insert x (y ∷ ys) = let rest = y ∷ insert x ys in if before y x then rest else x ∷ y ∷ ys

  unfoldable pub sort : List A → List A
  unfolding insert
  sort [] = []
  sort (x ∷ xs) = insert x (sort xs)

  -- Nothing later in the list stands before something earlier.
  abbrev pub IsSorted : List A → Type 0
  IsSorted [] = Unit
  IsSorted (x ∷ xs) = All (λ y. before y x ≡ false) xs × IsSorted xs

  any-insert : (p : A → Bool) (x : A) (xs : List A) → any p (insert x xs) ≡ (p x || any p xs)
  unfolding any insert
  any-insert p x [] = refl
  any-insert p x (y ∷ ys) = ground (arith, any-insert p x ys)

  -- Sorting keeps the elements.
  pub any-sort : (p : A → Bool) (xs : List A) → any p (sort xs) ≡ any p xs
  unfolding any sort
  any-sort p [] = refl
  any-sort p (x ∷ xs) = ground (arith, any-insert p x (sort xs), any-sort p xs)

  pub keep-IsSorted : (p : A → Bool) (xs : List A) → IsSorted xs → IsSorted (keep p xs)
  unfolding keep
  keep-IsSorted p [] h = tt
  keep-IsSorted p (x ∷ xs) h =
      if_split IsSorted (p x) (All-keep _ p xs h.0, keep-IsSorted p xs h.1) (keep-IsSorted p xs h.1)

  pub record IsOrder : Type ℓ where
    pub asymm : (a b : A) → before a b ≡ true → before b a ≡ false
    pub trans : (a b c : A) → before b a ≡ false → before c b ≡ false → before c a ≡ false

module _ {ℓ} {A : Type ℓ} (before : A → A → Bool) (o : IsOrder before) where
  All-insert : (P : A → Type 0) (x : A) (xs : List A) → P x → All P xs → All P (insert before x xs)
  unfolding insert
  All-insert P x [] h k = (h, tt)
  All-insert P x (y ∷ ys) h k = if_split (All P) (before y x) (k.0, All-insert P x ys h k.1) (h, k)

  above :
      (x y : A) (ys : List A)
      → before y x ≡ false
      → All (λ z. before z y ≡ false) ys
      → All (λ z. before z x ≡ false) ys
  above x y [] h k = tt
  above x y (z ∷ zs) h k = (o.trans x y z h k.0, above x y zs h k.1)

  insert-IsSorted :
      (x : A) (xs : List A) → IsSorted before xs → IsSorted before (insert before x xs)
  unfolding insert
  insert-IsSorted x [] h = (tt, tt)
  insert-IsSorted x (y ∷ ys) h = elim (Bool-cases (before y x)) [
    | inl e ↦
        rw e
          (All-insert (λ z. before z y ≡ false) x ys (o.asymm y x e) h.0, insert-IsSorted x ys h.1)
    | inr e ↦ rw e ((e, above x y ys e h.0), h)
  ]

  pub sort-IsSorted : (xs : List A) → IsSorted before (sort before xs)
  unfolding sort
  sort-IsSorted [] = tt
  sort-IsSorted (x ∷ xs) = insert-IsSorted x (sort before xs) (sort-IsSorted xs)
