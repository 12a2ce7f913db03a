-- ===== src/Walk/Closed.antt =====
-- The folders that a list of paths brings with it.
use drone_db.Base.{
  ◌≡◌, refl, sym, ◌∙◌, inl, inr, ◌↔◌, Bool, true, false, ◌&&◌, ◌||◌, Bool-cases, List, [], ◌∷◌,
  ◌++◌, Text, same_iff, same_refl, any, any-append, arith, subst, if◌then◌else◌, map, Result, ok,
  err, ◌>>=◌, fs_error, >>=-returns, ok-injective,
}
use drone_db.Walk.{
  Dir, Seen, absent, a_file, a_folder, same_dir, member, is_parent_of, is_ddb, walk, climb,
  put_folder, put_folders, enter, enter_walked, enter_seen, collect, listed, get_index_path_list,
}

same_dir→eq : (a b : Dir) → same_dir a b ≡ true → a ≡ b
unfolding same_dir
same_dir→eq [] [] h = refl
same_dir→eq [] (y ∷ ys) h = cc
same_dir→eq (x ∷ xs) [] h = cc
same_dir→eq (x ∷ xs) (y ∷ ys) h = ground (arith, same_iff x y, same_dir→eq xs ys)

pub same_dir_refl : (a : Dir) → same_dir a a ≡ true
unfolding same_dir
same_dir_refl [] = refl
same_dir_refl (x ∷ xs) = ground (arith, same_refl x, same_dir_refl xs)

pub same_dir_iff : (a b : Dir) → (same_dir a b ≡ true) ↔ (a ≡ b)
same_dir_iff a b = (same_dir→eq a b, λ e. ground (arith, e, same_dir_refl a))

pub member-put_folder :
    (x d : Dir) (folders : List Dir)
    → member x (put_folder d folders) ≡ (same_dir d x || member x folders)
unfolding any
member-put_folder x d folders = elim (Bool-cases (member d folders)) [
  | inl e ↦ rw e (elim (Bool-cases (same_dir d x)) [
    | inl s ↦ rw s (subst (λ y. member y folders ≡ true) ((same_dir_iff d x).0 s) e)
    | inr s ↦ rw s refl
  ])
  | inr e ↦ rw e refl
]

pub member-put_folders :
    (x : Dir) (ds folders : List Dir)
    → member x (put_folders ds folders) ≡ (member x ds || member x folders)
unfolding any
member-put_folders x [] folders = refl
member-put_folders x (d ∷ ds) folders =
    ground (arith, member-put_folder x d (put_folders ds folders), member-put_folders x ds folders)

abbrev pub entered : Dir → List Dir × List Dir → Bool
entered x (paths, folders) = member x paths || member x folders

module _ (root : Dir) where
  climb_first :
      (n : Text) (p : Dir) → is_parent_of root p ≡ true → member p (climb root (n ∷ p)) ≡ true
  unfolding climb any
  climb_first n p h = rw (h, same_dir_refl p) refl

  member-climb :
      (x : Dir) (m : Text) (r : Dir)
      → member x (climb root (m ∷ r))
        ≡ (is_parent_of root r && (same_dir r x || member x (climb root r)))
  unfolding climb any
  member-climb x m r = elim (Bool-cases (is_parent_of root r)) [
    | inl e ↦ rw e refl
    | inr e ↦ rw e refl
  ]

  climb_closed :
      (n : Text) (p q : Dir)
      → member (n ∷ p) (climb root q) ≡ true
      → is_parent_of root p ≡ true
      → member p (climb root q) ≡ true
  unfolding climb any
  climb_closed n p [] h k = cc
  climb_closed n p (m ∷ r) h k = elim (Bool-cases (same_dir r (n ∷ p))) [
    | inl e ↦
        let inner =
          subst (λ x. member p (climb root x) ≡ true) (sym ((same_dir_iff r (n ∷ p)).0 e))
            (climb_first n p k) in
        ground (arith, inner, h, member-climb (n ∷ p) m r, member-climb p m r)
    | inr e ↦
        ground (arith, e, h, k, climb_closed n p r, member-climb (n ∷ p) m r, member-climb p m r)
  ]

  pub entered-enter :
      (x q : Dir) (to_folders : Bool) (acc : List Dir × List Dir)
      → entered x (enter root true to_folders q acc)
        ≡ (same_dir q x || member x (climb root q) || entered x acc)
  unfolding any
  entered-enter x q true (paths, folders) = ground (
    arith,
    member-put_folders x (climb root q) (put_folder q folders),
    member-put_folder x q folders,
  )
  entered-enter x q false (paths, folders) = ground (
    arith,
    member-put_folders x (climb root q) folders,
    any-append (λ d. same_dir d x) paths (q ∷ []),
  )

  -- What the folders have after a path is entered.
  folders-enter :
      (x q : Dir) (to_folders : Bool) (acc : List Dir × List Dir)
      → member x (climb root q) || member x acc.1 ≡ true
      → member x (enter root true to_folders q acc).1 ≡ true
  folders-enter x q true (paths, folders) h = ground (
    arith,
    member-put_folders x (climb root q) (put_folder q folders),
    member-put_folder x q folders,
  )
  folders-enter x q false (paths, folders) h =
      ground (arith, member-put_folders x (climb root q) folders)

  -- The parents of each entered path, within the root, are among the folders.
  abbrev IsClosed : List Dir × List Dir → Type 0
  IsClosed acc =
      (n : Text) (p : Dir)
      → entered (n ∷ p) acc ≡ true
      → is_parent_of root p ≡ true
      → member p acc.1 ≡ true

  enter-IsClosed :
      (q : Dir) (to_folders : Bool) (acc : List Dir × List Dir)
      → IsClosed acc
      → IsClosed (enter root true to_folders q acc)
  enter-IsClosed q to_folders acc c n p h k =
      folders-enter p q to_folders acc (parent (same_dir q (n ∷ p)) refl)
    where
      parent :
          (b : Bool) → same_dir q (n ∷ p) ≡ b → member p (climb root q) || member p acc.1 ≡ true
      parent true e = ground (
        arith,
        subst (λ x. member p (climb root x) ≡ true) (sym ((same_dir_iff q (n ∷ p)).0 e))
            (climb_first n p k),
      )
      parent false e =
          ground (arith, e, entered-enter (n ∷ p) q to_folders acc, climb_closed n p q, c n p, h, k)

  walked-IsClosed :
      (qs : List (Dir × Bool)) (acc : List Dir × List Dir)
      → IsClosed acc
      → IsClosed (enter_walked root true qs acc)
  walked-IsClosed [] acc c = c
  walked-IsClosed ((q, is_dir) ∷ qs) acc c =
      walked-IsClosed qs (enter root true (is_dir && true) q acc)
        (enter-IsClosed q (is_dir && true) acc c)

  seen-IsClosed :
      (p : Dir) (s : Seen) (acc acc' : List Dir × List Dir)
      → IsClosed acc
      → enter_seen root true p s acc ≡ ok acc'
      → IsClosed acc'
  seen-IsClosed p absent acc acc' c h = cc
  seen-IsClosed p a_file acc acc' c h =
      subst IsClosed (ok-injective h) (enter-IsClosed p false acc c)
  seen-IsClosed p (a_folder f) acc acc' c h = subst IsClosed (ok-injective h) (
      enter-IsClosed p true (enter_walked root true (walk f p) acc)
        (walked-IsClosed (walk f p) acc c))

  module _ (seen : Dir → Seen) where
    pub collect_skips :
        (p : Dir) (ps : List Dir) (acc : List Dir × List Dir)
        → is_ddb p ≡ true
        → collect root seen true (p ∷ ps) acc ≡ collect root seen true ps acc
    unfolding collect
    collect_skips p ps acc e = rw e refl

    pub collect_enters :
        (p : Dir) (ps : List Dir) (acc : List Dir × List Dir)
        → is_ddb p ≡ false
        → collect root seen true (p ∷ ps) acc
          ≡ enter_seen root true p (seen p) acc >>= collect root seen true ps
    unfolding collect
    collect_enters p ps acc e = rw e refl

    collect-IsClosed :
        (ps : List Dir) (acc acc' : List Dir × List Dir)
        → IsClosed acc
        → collect root seen true ps acc ≡ ok acc'
        → IsClosed acc'
    unfolding collect
    collect-IsClosed [] acc acc' c h = subst IsClosed (ok-injective h) c
    collect-IsClosed (p ∷ ps) acc acc' c h = elim (Bool-cases (is_ddb p)) [
      | inl e ↦ collect-IsClosed ps acc acc' c (sym (collect_skips p ps acc e) ∙ h)
      | inr e ↦
          let (mid, first, rest) =
            >>=-returns (enter_seen root true p (seen p) acc) (collect root seen true ps)
              (sym (collect_enters p ps acc e) ∙ h) in
          collect-IsClosed ps mid acc' (seen-IsClosed p (seen p) acc mid c first) rest
    ]

    pub listed-ok :
        (out : Result (List Dir × List Dir)) (result : List Dir)
        → listed root seen out ≡ ok result
        → (acc : List Dir × List Dir) × (out ≡ ok acc) × (result ≡ acc.0 ++ acc.1)
    listed-ok (ok acc) result h = (acc, refl, sym (ok-injective h))
    listed-ok (err e) result h = cc

    passed :
        (b : Bool) (x : Result (List Dir)) (result : List Dir)
        → (if b then err fs_error else x) ≡ ok result
        → x ≡ ok result
    passed true x result h = cc
    passed false x result h = h

    pub index_paths :
        (dir_of : Text → Dir) (paths : List Text) (result : List Dir)
        → get_index_path_list root seen dir_of paths true ≡ ok result
        → listed root seen (collect root seen true (map dir_of paths) ([], [])) ≡ ok result
    unfolding get_index_path_list
    index_paths dir_of paths result h = passed _ _ result h

    -- Of each path that `getIndexPathList` gives, with folders included, it gives also the folder that
    -- holds it, where that is below the root directory. So, with its folder, every folder between the
    -- root directory and the path is there.
    pub folders_of_listed_paths_are_listed :
        (dir_of : Text → Dir) (paths : List Text) (result : List Dir) (name : Text) (folder : Dir)
        → get_index_path_list root seen dir_of paths true ≡ ok result
        → member (name ∷ folder) result ≡ true
        → is_parent_of root folder ≡ true
        → member folder result ≡ true
    unfolding any
    folders_of_listed_paths_are_listed dir_of paths result name folder h m below =
        let (acc, out, all_paths) =
          listed-ok (collect root seen true (map dir_of paths) ([], [])) result
            (index_paths dir_of paths result h) in
        let closed =
          collect-IsClosed (map dir_of paths) ([], []) acc (λ n p f k. cc) out name folder in
        ground (
          arith,
          all_paths,
          m,
          below,
          closed,
          any-append (λ d. same_dir d (name ∷ folder)) acc.0 acc.1,
          any-append (λ d. same_dir d folder) acc.0 acc.1,
        )
