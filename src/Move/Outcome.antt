-- ===== src/Move/Outcome.antt =====
-- What `moveEntry` does, on every branch.
use drone_db.Base.{
  ℕ, ◌≡◌, refl, ap, ◌⊎◌, inl, inr, Bool, true, false, ◌||◌, Option, none, some, List, [], ◌∷◌,
  arith, Text, same, last?, any, All, if◌then◌else◌, Error, Result, ok, err, invalid_args,
  undefined, eqb, ◌>>=◌, subst, ok-injective,
}
use drone_db.Index.Table.{EntryType, Entry, Table, find_row}
use drone_db.Transaction.{Connection, Fault}
use drone_db.Transaction.Atomic.{in_transaction_atomic}
use drone_db.Move.{
  Stored, segments_from, has_dot_notation, check_path, is_folder, movable, move_file, move_folder,
  move_entry, move_body, move_checked, run_move, stored_or,
}
use drone_db.Move.File.{file_row, moved_file}

-- Neither `.` nor `..`.
abbrev pub IsName : Text → Type 0
IsName seg = (same seg (b'.' ∷ b'.' ∷ []) ≡ false) × (same seg (b'.' ∷ []) ≡ false)

-- The path is not empty, ends in no slash or backslash, and has no segment `.` or `..`.
abbrev pub IsAllowed : Text → Type 0
IsAllowed p =
    ((c : ℕ) × (last? p ≡ some c) × (eqb c b'/' ≡ false) × (eqb c b'\\' ≡ false))
    × All IsName (segments_from [] p)

All-names :
    (segs : List Text)
    → any (λ seg. same seg (b'.' ∷ b'.' ∷ []) || same seg (b'.' ∷ [])) segs ≡ false
    → All IsName segs
unfolding any
All-names [] h = tt
All-names (seg ∷ segs) h =
    ((ground (arith, h), ground (arith, h)), All-names segs (ground (arith, h)))

abbrev checked : Bool → Option ℕ → Result (Unit {0})
checked dots o = elim o [
  | none ↦ err undefined
  | some c ↦
      if eqb c b'/' || eqb c b'\\'
      then err invalid_args
      else if dots
      then err invalid_args
      else ok tt
]

passes :
    (o : Option ℕ) (dots : Bool)
    → checked dots o ≡ ok tt
    → ((c : ℕ) × (o ≡ some c) × (eqb c b'/' ≡ false) × (eqb c b'\\' ≡ false)) × (dots ≡ false)
passes none dots h = cc
passes (some c) dots h = ((c, refl, ground (arith, h), ground (arith, h)), ground (arith, h))

check_path-IsAllowed : (p : Text) → check_path p ≡ ok tt → IsAllowed p
unfolding check_path has_dot_notation
check_path-IsAllowed p h =
    let (ends, dots) = passes (last? p) (has_dot_notation p) h in
    (ends, All-names (segments_from [] p) dots)

-- Nothing is at the destination, or neither entry is a folder.
abbrev pub IsFree : Entry → Option Entry → Type 0
IsFree e there =
    (there ≡ none)
    ⊎ ((d : Entry) × (there ≡ some d) × (is_folder e.type ≡ false) × (is_folder d.type ≡ false))

IsFree-of :
    (x d e : Entry) (b c : Bool)
    → is_folder x.type ≡ b
    → is_folder d.type ≡ c
    → (if b || c then err invalid_args else ok x) ≡ ok e
    → (some x ≡ some e) × IsFree e (some d)
IsFree-of x d e true c hb hc h = cc
IsFree-of x d e false true hb hc h = cc
IsFree-of x d e false false hb hc h =
    let i : x ≡ e = ok-injective h in
    (ap some i, inr (d, refl, subst (λ (y : Entry). is_folder y.type ≡ false) i hb, hc))

movable-IsFree :
    (here there : Option Entry) (e : Entry)
    → movable here there ≡ ok e
    → (here ≡ some e) × IsFree e there
unfolding movable
movable-IsFree none there e h = cc
movable-IsFree (some x) none e h = (ap some (ok-injective h), inl refl)
movable-IsFree (some x) (some d) e h = IsFree-of x d e _ _ refl refl h

module _ (depth : Text → ℕ) (extension : Text → Text) (fingerprint : Text → Result EntryType)
    (like : Text → Text → Bool) (missing_folders : Table → List Text) (now : ℕ) where
  -- What `moveEntry` does: it ends outside a transaction, and either throws and leaves both tables,
  -- or was given one path twice and does nothing, or makes of the tables what the move of the
  -- source's entry makes of them.
  abbrev MovesOrNot :
      Text → Text → Connection Stored → Result (Unit {0}) × Connection Stored → Type 0
  MovesOrNot source dest c (r, c') =
      (c'.working ≡ none)
      × (((x : Error) × (r ≡ err x) × (c'.committed ≡ c.committed))
          ⊎ ((r ≡ ok tt) × (same source dest ≡ true) × (c'.committed ≡ c.committed))
          ⊎ ((e : Entry) × (r ≡ ok tt)
              × (same source dest ≡ false)
              × (movable (find_row source c.committed.entries) (find_row dest c.committed.entries)
                  ≡ ok e)
              × (move_body depth extension fingerprint like missing_folders now e source dest
                    c.committed
                  ≡ (ok tt, c'.committed))))

  run-MovesOrNot :
      (f g : Fault) (source dest : Text) (c : Connection Stored) (m : Result Entry)
      → c.working ≡ none
      → same source dest ≡ false
      → movable (find_row source c.committed.entries) (find_row dest c.committed.entries) ≡ m
      → MovesOrNot source dest c
          (run_move depth extension fingerprint like missing_folders now f g source dest c m)
  run-MovesOrNot f g source dest c (err x) w b m = (w, inl (x, refl, refl))
  run-MovesOrNot f g source dest c (ok e) w b m =
      let (w', either) =
        in_transaction_atomic f g
          (move_body depth extension fingerprint like missing_folders now e source dest) c w in
      (
        w',
        elim either [
          | inl (_, out, done) ↦ inr (inr (e, out, b, m, done))
          | inr failed ↦ inl failed
        ],
      )

  distinct-MovesOrNot :
      (f g : Fault) (source dest : Text) (c : Connection Stored) (b : Bool)
      → c.working ≡ none
      → same source dest ≡ b
      → MovesOrNot source dest c (
          if b
          then (ok tt, c)
          else run_move depth extension fingerprint like missing_folders now f g source dest c
              (movable (find_row source c.committed.entries) (find_row dest c.committed.entries)))
  distinct-MovesOrNot f g source dest c true w b = (w, inr (inl (refl, b, refl)))
  distinct-MovesOrNot f g source dest c false w b = run-MovesOrNot f g source dest c _ w b refl

  -- A folder is moved by `move_folder`; a file leaves no row at the source, is at the destination with
  -- its new path, depth and type, and the rows of the other paths stay.
  abbrev pub HasMoved : Bool → Entry → Text → Text → Stored → Stored → Type 0
  HasMoved true e source dest s s' =
      move_folder depth extension fingerprint like missing_folders now source dest s ≡ ok s'
  HasMoved false e source dest s s' =
      (type : EntryType) × (if same (extension source) (extension dest)
        then type ≡ e.type
        else fingerprint dest ≡ ok type)
      × ((p : Text)
          → find_row p s'.entries ≡ (
              if same dest p
              then some (file_row depth dest type e)
              else if same source p
              then none
              else find_row p s.entries))

  abbrev pub MoveOutcome :
      Text → Text → Connection Stored → Result (Unit {0}) × Connection Stored → Type 0
  MoveOutcome source dest c (r, c') =
      (c'.working ≡ none)
      × (((x : Error) × (r ≡ err x) × (c'.committed ≡ c.committed))
          ⊎ ((r ≡ ok tt)
              × IsAllowed source
              × IsAllowed dest
              × (((same source dest ≡ true) × (c'.committed ≡ c.committed))
                  ⊎ ((e : Entry) × (find_row source c.committed.entries ≡ some e)
                      × IsFree e (find_row dest c.committed.entries)
                      × HasMoved (is_folder e.type) e source dest c.committed c'.committed))))

  stored :
      (s s' : Stored) (x : Result Stored)
      → stored_or depth extension fingerprint like missing_folders now s x ≡ (ok tt, s')
      → x ≡ ok s'
  stored s s' (ok y) h = ap ok (ap (λ w. w.1) h)
  stored s s' (err y) h = cc

  body-HasMoved :
      (e : Entry) (source dest : Text) (s s' : Stored) (b : Bool)
      → same source dest ≡ false
      → find_row source s.entries ≡ some e
      → (if b
          then move_folder depth extension fingerprint like missing_folders now source dest s
          else move_file depth extension fingerprint like missing_folders now e source dest s)
        ≡ ok s'
      → HasMoved b e source dest s s'
  body-HasMoved e source dest s s' true d there h = h
  body-HasMoved e source dest s s' false d there h =
      moved_file depth extension fingerprint like missing_folders now e source dest s s' d there h

  allowed-MoveOutcome :
      (source dest : Text) (c : Connection Stored) (out : Result (Unit {0}) × Connection Stored)
      → IsAllowed source
      → IsAllowed dest
      → MovesOrNot source dest c out
      → MoveOutcome source dest c out
  allowed-MoveOutcome source dest c (r, c') a b (w, inl failed) = (w, inl failed)
  allowed-MoveOutcome source dest c (r, c') a b (w, inr (inl (out, twice, kept))) =
      (w, inr (out, a, b, inl (twice, kept)))
  allowed-MoveOutcome source dest c (r, c') a b (w, inr (inr (e, out, d, m, done))) =
      let (there, free) = movable-IsFree _ _ e m in
      (
        w,
        inr (
          out,
          a,
          b,
          inr (
            e,
            there,
            free,
            body-HasMoved e source dest c.committed c'.committed (is_folder e.type) d there
                (stored c.committed c'.committed _ done),
          ),
        ),
      )

  checked-MoveOutcome :
      (f g : Fault) (source dest : Text) (c : Connection Stored) (x y : Result (Unit {0}))
      → c.working ≡ none
      → check_path source ≡ x
      → check_path dest ≡ y
      → MoveOutcome source dest c (
          move_checked depth extension fingerprint like missing_folders now f g source dest c
            (x >>= (λ _. y)))
  checked-MoveOutcome f g source dest c (err x) y w h k = (w, inl (x, refl, refl))
  checked-MoveOutcome f g source dest c (ok _) (err y) w h k = (w, inl (y, refl, refl))
  checked-MoveOutcome f g source dest c (ok _) (ok _) w h k =
      allowed-MoveOutcome source dest c _ (check_path-IsAllowed source h)
        (check_path-IsAllowed dest k)
        (distinct-MovesOrNot f g source dest c (same source dest) w refl)

  -- Outside a transaction, `moveEntry` ends outside one. It throws and leaves both tables as they were;
  -- or it returns, neither path is empty, ends in a slash or a backslash or has a segment `.` or `..`,
  -- and the two paths are the same and both tables stay, or the source has an entry, the destination
  -- has none or neither is a folder, and the entry has moved: a folder by the folder move, a file so
  -- that the source has no row, the destination has its row with the new path, depth and type, and the
  -- rows of the other paths stay.
  pub move_entry_exact :
      (f g : Fault) (source dest : Text) (c : Connection Stored)
      → c.working ≡ none
      → MoveOutcome source dest c
          (move_entry depth extension fingerprint like missing_folders now f g source dest c)
  unfolding move_entry
  move_entry_exact f g source dest c w = checked-MoveOutcome f g source dest c _ _ w refl refl
