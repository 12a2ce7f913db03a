-- ===== src/Base/Texts.antt =====
-- `std::string` as its bytes, with `==` and `<` of the C++ class.
use Prim.Native.Char.{code}
use Prim.Native.String.{String}
use Prim.Native.Nat.{ℕ}
use mathlib.Core.Path.{◌≡◌, refl}
use mathlib.Core.Logic.{◌↔◌}
use mathlib.Core.Bool.{Bool, true, false, ◌&&◌}
use mathlib.Core.List.{List, [], ◌∷◌}
use mathlib.Core.Option.{Option, none, some}
use native.Mathlib.Omega.{arith}
use drone_db.Base.Tests.{ltb, eqb, if◌then◌else◌}

abbrev pub Text : Type 0
Text = List ℕ

-- A literal: the bytes of an ASCII text.
abbrev pub bytes : String → Text
bytes String.[] = []
bytes (String.◌∷◌ c s) = code c ∷ bytes s

unfoldable pub same : Text → Text → Bool
same [] [] = true
same [] (y ∷ ys) = false
same (x ∷ xs) [] = false
same (x ∷ xs) (y ∷ ys) = eqb x y && same xs ys

same→eq : (a b : Text) → same a b ≡ true → a ≡ b
unfolding same
same→eq [] [] h = refl
same→eq [] (y ∷ ys) h = cc
same→eq (x ∷ xs) [] h = cc
same→eq (x ∷ xs) (y ∷ ys) h = ground (arith, same→eq xs ys)

pub same_refl : (a : Text) → same a a ≡ true
unfolding same
same_refl [] = refl
same_refl (x ∷ xs) = ground (arith, same_refl xs)

pub same_iff : (a b : Text) → (same a b ≡ true) ↔ (a ≡ b)
same_iff a b = (same→eq a b, λ e. ground (arith, same_refl a))

pub same-sym : (a b : Text) → same a b ≡ same b a
same-sym a b = ground (arith, same_iff a b, same_iff b a)

-- lexicographic, by byte
unfoldable pub lt : Text → Text → Bool
lt [] [] = false
lt [] (y ∷ ys) = true
lt (x ∷ xs) [] = false
lt (x ∷ xs) (y ∷ ys) =
    let rest = lt xs ys in if ltb x y then true else if ltb y x then false else rest

pub lt_asymm : (a b : Text) → lt a b ≡ true → lt b a ≡ false
unfolding lt
lt_asymm [] [] h = refl
lt_asymm [] (y ∷ ys) h = refl
lt_asymm (x ∷ xs) [] h = cc
lt_asymm (x ∷ xs) (y ∷ ys) h = ground (arith, lt_asymm xs ys)

-- `≤`, as `!(b < a)`, is transitive.
pub lt_trans : (a b c : Text) → lt b a ≡ false → lt c b ≡ false → lt c a ≡ false
unfolding lt
lt_trans [] [] [] h k = refl
lt_trans [] b (z ∷ zs) h k = refl
lt_trans [] (y ∷ ys) [] h k = cc
lt_trans (x ∷ xs) [] c h k = cc
lt_trans (x ∷ xs) (y ∷ ys) [] h k = cc
lt_trans (x ∷ xs) (y ∷ ys) (z ∷ zs) h k = ground (arith, lt_trans xs ys zs)

-- the last byte: `s[s.length() - 1]`, which has no value on the empty text
abbrev pub last? : Text → Option ℕ
last? [] = none
last? (x ∷ []) = some x
last? (x ∷ y ∷ ys) = last? (y ∷ ys)
