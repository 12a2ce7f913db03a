-- ===== src/Remove/Pattern.antt =====
-- What LIKE reads in a pattern of `sanitize_query_param`.
use drone_db.Base.{
  ℕ, ◌≡◌, refl, Bool, true, false, List, [], ◌∷◌, ◌++◌, map, arith, Text, bytes, eqb, if◌then◌else◌,
}
use drone_db.Remove.{replace_from, string_replace, sanitize_query_param}

-- A pattern of LIKE with the escape `/`, as SQLite documents it: `%` stands for any text, `_` for one
-- character, and `/` takes what follows literally.
pub data Token : Type 0 where
  exactly : ℕ → Token
  any_one any_text : Token

abbrev pub plain : ℕ → Token
plain c = if eqb c b'%' then any_text else if eqb c b'_' then any_one else exactly c

unfoldable pub like_tokens : Bool → Text → List Token
like_tokens escaped [] = []
like_tokens true (c ∷ s) = exactly c ∷ like_tokens false s
like_tokens false (c ∷ s) =
    let after_escape = like_tokens true s in
    let rest = like_tokens false s in if eqb c b'/' then after_escape else plain c ∷ rest

-- a query: `*` stands for any text, and so does `_` for one character
abbrev pub query_token : ℕ → Token
query_token c = if eqb c b'*' then any_text else if eqb c b'_' then any_one else exactly c

-- byte by byte
abbrev pub each : ℕ → Text → Text → Text
each from to [] = []
each from to (c ∷ s) = let rest = each from to s in if eqb from c then to ++ rest else c ∷ rest

replace_byte : (from : ℕ) (to s : Text) → replace_from 0 (from ∷ []) to s ≡ each from to s
unfolding replace_from
replace_byte from to [] = refl
replace_byte from to (c ∷ s) = ground (arith, replace_byte from to s)

sanitized :
    (s : Text)
    → sanitize_query_param s
      ≡ each b'*' (bytes "%") (each b'%' (bytes "/%") (each b'/' (bytes "//") s))
unfolding sanitize_query_param string_replace
sanitized s =
    rw
      (
        replace_byte b'/' (bytes "//") s,
        replace_byte b'%' (bytes "/%") (each b'/' (bytes "//") s),
        replace_byte b'*' (bytes "%") (each b'%' (bytes "/%") (each b'/' (bytes "//") s)),
      )
      refl

read-each :
    (s : Text)
    → like_tokens false (each b'*' (bytes "%") (each b'%' (bytes "/%") (each b'/' (bytes "//") s)))
      ≡ map query_token s
unfolding like_tokens
read-each [] = refl
read-each (c ∷ s) = ground (arith, read-each s)

-- LIKE takes every byte of a sanitized query literally, a slash and a percent sign included, except
-- that a star stands for any text and an underscore for any one character.
pub like_tokens-sanitize :
    (s : Text) → like_tokens false (sanitize_query_param s) ≡ map query_token s
like_tokens-sanitize s = rw (sanitized s) (read-each s)
