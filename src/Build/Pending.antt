-- ===== src/Build/Pending.antt =====
-- The pending files of library/build.cpp: what `buildInternal` writes for missing dependencies, and
-- `parsePendingFile`. Numbers are printed and read by the C++ library.
use drone_db.Base.{
  ℕ, ◌≡◌, refl, ap, ◌∙◌, Bool, true, false, ◌&&◌, ◌||◌, not, Option, none, some, List, [], ◌∷◌,
  ◌++◌, Text, eqb, leb, all, All, keep, arith, if◌then◌else◌,
}
use drone_db.Meta.{is_blank}

-- include: the struct of the same name
pub record PendingFileData : Type 0 where
  pub last_attempt : ℕ
  pub missing_dependencies : List Text

-- `c` goes before the first line.
abbrev pub on_first_line : ℕ → List Text → List Text
on_first_line c [] = (c ∷ []) ∷ []
on_first_line c (l ∷ ls) = (c ∷ l) ∷ ls

-- The lines that `std::getline` gives.
unfoldable pub lines : Text → List Text
lines [] = []
lines (c ∷ s) = let rest = lines s in if eqb c 10 then [] ∷ rest else on_first_line c rest

abbrev pub is_timestamp_char : ℕ → Bool
is_timestamp_char c = (leb b'0' c && leb c b'9') || eqb c b'-' || eqb c b'+'

abbrev pub or_zero : Option ℕ → ℕ
or_zero none = 0
or_zero (some n) = n

-- Each dependency has its line.
unfoldable pub dependency_lines : List Text → Text
dependency_lines [] = []
dependency_lines (dep ∷ deps) = dep ++ 10 ∷ dependency_lines deps

unfoldable pub pending_text : (ℕ → Text) → ℕ → List Text → Text
unfolding dependency_lines
pending_text print now deps = print now ++ 10 ∷ dependency_lines deps

-- `stoll` is `std::stoll`, none where it throws or gives a negative number.
module _ (stoll : Text → Option ℕ) where
  abbrev pub parse_timestamp : Text → ℕ
  parse_timestamp line = if all is_timestamp_char line then or_zero (stoll line) else 0

  abbrev pub parse_lines : List Text → PendingFileData
  parse_lines [] = record { last_attempt = parse_timestamp []; missing_dependencies = [] }
  parse_lines (line ∷ rest) = record {
    last_attempt = parse_timestamp line;
    missing_dependencies = keep (λ l. not (is_blank l)) rest;
  }

  -- Of a file's text, none where it cannot be opened.
  unfoldable pub parse_pending_file : Option Text → PendingFileData
  unfolding lines
  parse_pending_file none = record { last_attempt = 0; missing_dependencies = [] }
  parse_pending_file (some text) = parse_lines (lines text)

  abbrev pub IsOneLine : Text → Type 0
  IsOneLine s = all (λ c. not (eqb c 10)) s ≡ true

  lines-append : (l rest : Text) → IsOneLine l → lines (l ++ 10 ∷ rest) ≡ l ∷ lines rest
  unfolding lines all
  lines-append [] rest h = refl
  lines-append (c ∷ l) rest h =
      let other : eqb c 10 ≡ false = ground arith in
      let line : IsOneLine l = ground arith in rw (other, lines-append l rest line) refl

  lines-dependencies :
      (deps : List Text) → All IsOneLine deps → lines (dependency_lines deps) ≡ deps
  unfolding dependency_lines lines
  lines-dependencies [] h = refl
  lines-dependencies (dep ∷ deps) h =
      lines-append dep (dependency_lines deps) h.0
      ∙ ap (λ ls. dep ∷ ls) (lines-dependencies deps h.1)

  one_line : (s : Text) → all is_timestamp_char s ≡ true → IsOneLine s
  unfolding all
  one_line [] h = refl
  one_line (c ∷ s) h = ground (arith, one_line s (ground arith))

  -- What a build writes for its missing dependencies is read back: the time, where the C++ library
  -- prints it in digits and reads what it prints, and the dependencies, where none has a line break,
  -- less those that are empty.
  pub parse_pending_file-pending_text :
      (print : ℕ → Text) (now : ℕ) (deps : List Text)
      → all is_timestamp_char (print now) ≡ true
      → stoll (print now) ≡ some now
      → All IsOneLine deps
      → parse_pending_file (some (pending_text print now deps))
        ≡ record { last_attempt = now; missing_dependencies = keep (λ l. not (is_blank l)) deps }
  unfolding parse_pending_file pending_text
  parse_pending_file-pending_text print now deps digits reads one =
      rw
        (
          lines-append (print now) (dependency_lines deps) (one_line (print now) digits),
          lines-dependencies deps one,
          digits,
          reads,
        )
        refl
