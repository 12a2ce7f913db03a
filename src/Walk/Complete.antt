-- ===== src/Walk/Complete.antt =====
-- What a folder holds is in the list.
use drone_db.Base.{
  ◌≡◌, refl, sym, ap, ◌∙◌, ◌⊎◌, inl, inr, Bool, true, false, ◌&&◌, ◌||◌, Bool-cases, not, List, [],
  ◌∷◌, Text, same, same_iff, any, all, any-append, arith, subst, map, ok, >>=-returns, ok-injective,
}
use drone_db.Walk.{
  Dir, Forest, empty, with_file, with_folder, Seen, absent, a_file, a_folder, ddb_folder, same_dir,
  member, is_ddb, walk, enter, enter_walked, enter_seen, collect, get_index_path_list,
}
use drone_db.Walk.Closed.{
  same_dir_iff, entered, entered-enter, collect_skips, collect_enters, listed-ok, index_paths,
}

abbrev ends : List Text → Bool
ends [] = true
ends (n ∷ ns) = false

-- Whether the names, from the outside in, lead to something in a folder.
unfoldable pub leads : Forest → List Text → Bool
leads empty ns = false
leads (with_file n rest) [] = false
leads (with_file n rest) (m ∷ ms) =
    let later = leads rest (m ∷ ms) in (same n m && ends ms) || later
leads (with_folder n inside rest) [] = false
leads (with_folder n inside rest) (m ∷ ms) =
    let later = leads rest (m ∷ ms) in
    let within = leads inside ms in (same n m && (ends ms || within)) || later

abbrev pub descend : List Text → Dir → Dir
descend [] p = p
descend (n ∷ ns) p = descend ns (n ∷ p)

abbrev pub walked : Dir → List (Dir × Bool) → Bool
walked q qs = any (λ (x : Dir × Bool). same_dir x.0 q) qs

pub walked-file :
    (n : Text) (rest : Forest) (p q : Dir)
    → walked q (walk (with_file n rest) p)
      ≡ ((not (same n ddb_folder) && same_dir (n ∷ p) q) || walked q (walk rest p))
unfolding walk any
walked-file n rest p q = elim (Bool-cases (same n ddb_folder)) [
  | inl e ↦ rw e refl
  | inr e ↦ rw e refl
]

pub walked-folder :
    (n : Text) (inside rest : Forest) (p q : Dir)
    → walked q (walk (with_folder n inside rest) p) ≡ (
        (not (same n ddb_folder) && (same_dir (n ∷ p) q || walked q (walk inside (n ∷ p))))
        || walked q (walk rest p))
unfolding walk any
walked-folder n inside rest p q = elim (Bool-cases (same n ddb_folder)) [
  | inl e ↦ rw e refl
  | inr e ↦
      rw (e, any-append (λ (x : Dir × Bool). same_dir x.0 q) (walk inside (n ∷ p)) (walk rest p))
        (ground arith)
]

abbrev pub is_plain : List Text → Bool
is_plain ns = all (λ n. not (same n ddb_folder)) ns

-- Whether it is the first of the names that ends the way, or another.
at_end :
    (n m : Text) (ms : List Text) (p : Dir)
    → same n m && ends ms ≡ true
    → same_dir (n ∷ p) (descend (m ∷ ms) p) ≡ true
at_end n m [] p h = ground (
  arith,
  (same_dir_iff (n ∷ p) (m ∷ p)).1,
  ap (λ (x : Text). x ∷ p) ((same_iff n m).0 (ground arith)),
)
at_end n m (k ∷ ms) p h = ground arith

pub walk-leads :
    (f : Forest) (p : Dir) (ns : List Text)
    → leads f ns ≡ true
    → is_plain ns ≡ true
    → walked (descend ns p) (walk f p) ≡ true
unfolding leads all
walk-leads empty p ns h k = cc
walk-leads (with_file n rest) p [] h k = cc
walk-leads (with_file n rest) p (m ∷ ms) h k = ground (
  arith,
  h,
  k,
  walked-file n rest p (descend (m ∷ ms) p),
  walk-leads rest p (m ∷ ms),
  at_end n m ms p,
  same_iff n m,
)
walk-leads (with_folder n inside rest) p [] h k = cc
walk-leads (with_folder n inside rest) p (m ∷ ms) h k = elim (Bool-cases (same n m)) [
  | inl e ↦
      let below : leads inside ms ≡ true
          → is_plain ms ≡ true
          → walked (descend ms (m ∷ p)) (walk inside (n ∷ p)) ≡ true =
        λ x y.
          subst (λ (z : Text). walked (descend ms (z ∷ p)) (walk inside (n ∷ p)) ≡ true)
            ((same_iff n m).0 e) (walk-leads inside (n ∷ p) ms x y) in
      ground (
        arith,
        e,
        h,
        k,
        below,
        at_end n m ms p,
        same_iff n m,
        walked-folder n inside rest p (descend (m ∷ ms) p),
        walk-leads rest p (m ∷ ms),
      )
  | inr e ↦ ground (
    arith,
    e,
    h,
    k,
    walked-folder n inside rest p (descend (m ∷ ms) p),
    walk-leads rest p (m ∷ ms),
  )
]

module _ (root : Dir) where
  enter_keeps :
      (x q : Dir) (to_folders : Bool) (acc : List Dir × List Dir)
      → entered x acc ≡ true
      → entered x (enter root true to_folders q acc) ≡ true
  enter_keeps x q to_folders acc h = ground (arith, h, entered-enter root x q to_folders acc)

  enter_has :
      (x p : Dir) (to_folders : Bool) (acc : List Dir × List Dir)
      → x ≡ p
      → entered x (enter root true to_folders p acc) ≡ true
  enter_has x p to_folders acc e =
      ground (arith, (same_dir_iff p x).1 (sym e), entered-enter root x p to_folders acc)

  walked_are_entered :
      (x : Dir) (qs : List (Dir × Bool)) (acc : List Dir × List Dir)
      → walked x qs || entered x acc ≡ true
      → entered x (enter_walked root true qs acc) ≡ true
  unfolding any
  walked_are_entered x [] acc h = h
  walked_are_entered x ((q, is_dir) ∷ qs) acc h =
      walked_are_entered x qs (enter root true (is_dir && true) q acc)
        (ground (arith, h, entered-enter root x q (is_dir && true) acc))

  seen_keeps :
      (x p : Dir) (s : Seen) (acc acc' : List Dir × List Dir)
      → entered x acc ≡ true
      → enter_seen root true p s acc ≡ ok acc'
      → entered x acc' ≡ true
  seen_keeps x p absent acc acc' c h = cc
  seen_keeps x p a_file acc acc' c h =
      subst (λ z. entered x z ≡ true) (ok-injective h) (enter_keeps x p false acc c)
  seen_keeps x p (a_folder f) acc acc' c h =
      subst (λ z. entered x z ≡ true) (ok-injective h)
        (enter_keeps x p true (enter_walked root true (walk f p) acc)
          (walked_are_entered x (walk f p) acc (ground arith)))

  -- What a path stands for: itself, and what its folder leads to.
  abbrev pub Holds : Dir → Seen → Dir → Type 0
  Holds p absent x = ⊥
  Holds p a_file x = x ≡ p
  Holds p (a_folder f) x =
      (x ≡ p) ⊎ ((ns : List Text) × (leads f ns ≡ true) × (is_plain ns ≡ true) × (x ≡ descend ns p))

  seen_enters :
      (x p : Dir) (s : Seen) (acc acc' : List Dir × List Dir)
      → Holds p s x
      → enter_seen root true p s acc ≡ ok acc'
      → entered x acc' ≡ true
  seen_enters x p absent acc acc' c h = cc
  seen_enters x p a_file acc acc' c h =
      subst (λ z. entered x z ≡ true) (ok-injective h) (enter_has x p false acc c)
  seen_enters x p (a_folder f) acc acc' (inl e) h =
      subst (λ z. entered x z ≡ true) (ok-injective h)
        (enter_has x p true (enter_walked root true (walk f p) acc) e)
  seen_enters x p (a_folder f) acc acc' (inr (ns, l, plain, e)) h =
      let found : walked x (walk f p) ≡ true = rw e (walk-leads f p ns l plain) in
      subst (λ z. entered x z ≡ true) (ok-injective h)
        (enter_keeps x p true (enter_walked root true (walk f p) acc)
          (walked_are_entered x (walk f p) acc (ground arith)))

  module _ (seen : Dir → Seen) where
    collect_keeps :
        (x : Dir) (ps : List Dir) (acc acc' : List Dir × List Dir)
        → entered x acc ≡ true
        → collect root seen true ps acc ≡ ok acc'
        → entered x acc' ≡ true
    unfolding collect
    collect_keeps x [] acc acc' c h = subst (λ z. entered x z ≡ true) (ok-injective h) c
    collect_keeps x (p ∷ ps) acc acc' c h = elim (Bool-cases (is_ddb p)) [
      | inl e ↦ collect_keeps x ps acc acc' c (sym (collect_skips root seen p ps acc e) ∙ h)
      | inr e ↦
          let (mid, first, rest) =
            >>=-returns (enter_seen root true p (seen p) acc) (collect root seen true ps)
              (sym (collect_enters root seen p ps acc e) ∙ h) in
          collect_keeps x ps mid acc' (seen_keeps x p (seen p) acc mid c first) rest
    ]

    collect_enters_all :
        (x p : Dir) (ps : List Dir) (acc acc' : List Dir × List Dir)
        → member p ps ≡ true
        → is_ddb p ≡ false
        → Holds p (seen p) x
        → collect root seen true ps acc ≡ ok acc'
        → entered x acc' ≡ true
    unfolding collect any
    collect_enters_all x p [] acc acc' m d c h = cc
    collect_enters_all x p (q ∷ ps) acc acc' m d c h = elim (Bool-cases (is_ddb q)) [
      | inl e ↦
          let other : same_dir q p ≡ true → is_ddb p ≡ true =
            λ s. subst (λ z. is_ddb z ≡ true) ((same_dir_iff q p).0 s) e in
          collect_enters_all x p ps acc acc' (ground arith) d c
            (sym (collect_skips root seen q ps acc e) ∙ h)
      | inr e ↦
          let (mid, first, rest) =
            >>=-returns (enter_seen root true q (seen q) acc) (collect root seen true ps)
              (sym (collect_enters root seen q ps acc e) ∙ h) in
          elim (Bool-cases (same_dir q p)) [
            | inl s ↦
                let same_seen = subst (λ z. Holds z (seen z) x) (sym ((same_dir_iff q p).0 s)) c in
                collect_keeps x ps mid acc' (seen_enters x q (seen q) acc mid same_seen first) rest
            | inr s ↦ collect_enters_all x p ps mid acc' (ground arith) d c rest
          ]
    ]

    -- Where `getIndexPathList` returns, with folders included, each given path is listed, and so is all
    -- that is in a given folder at any depth, but for what lies in a folder `.ddb` below it. A given path
    -- that is itself named `.ddb` is passed over.
    pub given_paths_are_listed :
        (dir_of : Text → Dir) (paths : List Text) (result : List Dir) (p x : Dir)
        → get_index_path_list root seen dir_of paths true ≡ ok result
        → member p (map dir_of paths) ≡ true
        → is_ddb p ≡ false
        → Holds p (seen p) x
        → member x result ≡ true
    given_paths_are_listed dir_of paths result p x h m d c =
        let (acc, out, all_paths) =
          listed-ok root seen (collect root seen true (map dir_of paths) ([], [])) result
            (index_paths root seen dir_of paths result h) in
        let there = collect_enters_all x p (map dir_of paths) ([], []) acc m d c out in
        ground (arith, all_paths, there, any-append (λ q. same_dir q x) acc.0 acc.1)
