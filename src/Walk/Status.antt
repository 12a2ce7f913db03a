-- ===== src/Walk/Status.antt =====
-- What `statusIndex` reports as new.
use drone_db.Base.{
  ◌≡◌, refl, sym, ◌∙◌, ◌≢◌, ◌↔◌, same_iff, All, arith, inl, inr, Bool, true, false, ◌&&◌,
  Bool-cases, List, [], ◌∷◌, Text, same, any, any-append, subst, ok, >>=-returns, ok-injective,
}
use drone_db.Index.Table.{Entry, Table, empty_entry}
use drone_db.Index.Check.{Files, FileStatus, not_indexed, check_update, is_known, checked_is_known}
use drone_db.Walk.{Dir, Forest, same_dir, render, walk}
use drone_db.Walk.Closed.{same_dir_iff}
use drone_db.Walk.Complete.{walked}
use drone_db.Walk.Reached.{IsReached, HasDdb, walked_iff, contains_ddb_iff}
use drone_db.Walk.Expand.{row_statuses, contains_ddb, is_reported, new_statuses, status_index}

abbrev pub is_new : Text → FileStatus × Text → Bool
is_new p (not_indexed, q) = same p q
is_new p _ = false

known_is_not_new : (q : Text) (s : FileStatus × Text) → is_known s.0 ≡ true → is_new q s ≡ false
known_is_not_new q (not_indexed, r) h = cc
known_is_not_new q _ h = refl

module _ (files : Files) (place : Text → Dir) (relative : Dir → Text) where
  rows_are_not_new :
      (rows : Table) (s : List (FileStatus × Text)) (p : Text)
      → row_statuses files place relative rows ≡ ok s
      → any (is_new p) s ≡ false
  unfolding row_statuses any
  rows_are_not_new [] s p h = subst (λ z. any (is_new p) z ≡ false) (ok-injective h) refl
  rows_are_not_new (row ∷ rows) s p h =
      let (out, checked, rest) =
        >>=-returns (check_update files empty_entry (render (place row.path)) row.mtime row.hash) _
          h in
      let (later, others, all_rows) = >>=-returns (row_statuses files place relative rows) _ rest in
      subst (λ z. any (is_new p) z ≡ false) (ok-injective all_rows)
        (rw
          (known_is_not_new p (out.0, row.path)
            (checked_is_known files empty_entry _ row.mtime row.hash out checked))
          (rows_are_not_new rows later p others))

  new-exact :
      (rows : Table) (qs : List (Dir × Bool)) (p : Text)
      → any (is_new p) (new_statuses files place relative rows qs)
        ≡ any
            (λ (x : Dir × Bool). is_reported files place relative rows x.0 && same p (relative x.0))
            qs
  unfolding new_statuses any
  new-exact rows [] p = refl
  new-exact rows ((q, is_dir) ∷ qs) p =
      elim (Bool-cases (is_reported files place relative rows q)) [
        | inl e ↦ rw (e, new-exact rows qs p) refl
        | inr e ↦ rw (e, new-exact rows qs p) refl
      ]

  new_paths_are_walked :
      (rows : Table) (root : Dir) (f : Forest) (out : List (FileStatus × Text)) (p : Text)
      → status_index files place relative rows root f ≡ ok out
      → any (is_new p) out
        ≡ any
            (λ (x : Dir × Bool). is_reported files place relative rows x.0 && same p (relative x.0))
            (walk f root)
  unfolding status_index
  new_paths_are_walked rows root f out p h =
      let (s, first, rest) = >>=-returns (row_statuses files place relative rows) _ h in
      subst
        (λ z.
          any (is_new p) z
          ≡ any
              (λ (x : Dir × Bool).
                is_reported files place relative rows x.0 && same p (relative x.0))
              (walk f root))
        (ok-injective rest)
        (any-append (is_new p) s (new_statuses files place relative rows (walk f root))
          ∙ rw (rows_are_not_new rows s p first) (new-exact rows (walk f root) p))

  -- Neither the place of a row nor with `.ddb` anywhere in the absolute path.
  abbrev pub IsUnknown : Table → Dir → Type 0
  IsUnknown rows q = All (λ (e : Entry). place e.path ≢ q) rows × ¬ HasDdb (render q)

  unknown_rows :
      (q : Dir) (rows : Table)
      → any (λ (e : Entry). same_dir (place e.path) q) rows ≡ false
      → All (λ (e : Entry). place e.path ≢ q) rows
  unfolding any
  unknown_rows q [] h = tt
  unknown_rows q (e ∷ rows) h = (
    λ there. ground (arith, h, (same_dir_iff (place e.path) q).1 there),
    unknown_rows q rows (ground (arith, h)),
  )

  known_row :
      (q : Dir) (rows : Table)
      → All (λ (e : Entry). place e.path ≢ q) rows
      → any (λ (e : Entry). same_dir (place e.path) q) rows ≡ false
  unfolding any
  known_row q [] h = refl
  known_row q (e ∷ rows) h = elim (Bool-cases (same_dir (place e.path) q)) [
    | inl there ↦ absurd (h.0 ((same_dir_iff (place e.path) q).0 there))
    | inr b ↦ ground (arith, b, known_row q rows h.1)
  ]

  is_reported_iff :
      (rows : Table) (q : Dir) → (is_reported files place relative rows q ≡ true) ↔ IsUnknown rows q
  is_reported_iff rows q = (
    λ h. (
      unknown_rows q rows (ground (arith, h)),
      λ ddb. ground (arith, h, (contains_ddb_iff (render q)).1 ddb),
    ),
    λ u. elim (Bool-cases (contains_ddb (render q))) [
      | inl c ↦ absurd (u.1 ((contains_ddb_iff (render q)).0 c))
      | inr c ↦ ground (arith, c, known_row q rows u.0)
    ],
  )

  picked :
      (g : Dir → Bool) (qs : List (Dir × Bool))
      → any (λ (x : Dir × Bool). g x.0) qs ≡ true
      → (q : Dir) × (walked q qs ≡ true) × (g q ≡ true)
  unfolding any
  picked g [] h = cc
  picked g ((q, is_dir) ∷ qs) h = elim (Bool-cases (g q)) [
    | inl e ↦ (q, ground (arith, (same_dir_iff q q).1 refl), e)
    | inr e ↦
        let (r, there, good) = picked g qs (ground (arith, e, h)) in
        (r, ground (arith, there), good)
  ]

  picks :
      (g : Dir → Bool) (q : Dir) (qs : List (Dir × Bool))
      → walked q qs ≡ true
      → g q ≡ true
      → any (λ (x : Dir × Bool). g x.0) qs ≡ true
  unfolding any
  picks g q [] h good = cc
  picks g q ((r, is_dir) ∷ qs) h good = elim (Bool-cases (same_dir r q)) [
    | inl e ↦
        let here : g r ≡ true = subst (λ z. g z ≡ true) (sym ((same_dir_iff r q).0 e)) good in
        ground (arith, here)
    | inr e ↦ ground (arith, picks g q qs (ground (arith, e, h)) good)
  ]

  -- Where `statusIndex` does not throw, a text is reported as not indexed just if it is the path, relative
  -- to the root directory, of something that names other than `.ddb` lead to from there, that is the
  -- place of no row and whose absolute path has no `.ddb` anywhere.
  pub new_paths_are_reported :
      (rows : Table) (root : Dir) (f : Forest) (out : List (FileStatus × Text)) (p : Text)
      → status_index files place relative rows root f ≡ ok out
      → (any (is_new p) out ≡ true)
        ↔ ((q : Dir) × IsReached f root q × IsUnknown rows q × (p ≡ relative q))
  new_paths_are_reported rows root f out p h =
      let exact = new_paths_are_walked rows root f out p h in
      let g = λ (q : Dir). is_reported files place relative rows q && same p (relative q) in
      (
        λ new.
            let (q, met, good) = picked g (walk f root) (sym exact ∙ new) in
            (
              q,
              (walked_iff f root q).0 met,
              (is_reported_iff rows q).0 (ground (arith, good)),
              (same_iff p (relative q)).0 (ground (arith, good)),
            ),
        λ found.
            exact
            ∙ picks g found.0 (walk f root) ((walked_iff f root found.0).1 found.1) (
                ground (
                  arith,
                  (is_reported_iff rows found.0).1 found.2,
                  (same_iff p (relative found.0)).1 found.3,
                )),
      )
