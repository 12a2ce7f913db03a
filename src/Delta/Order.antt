-- ===== src/Delta/Order.antt =====
-- The order of the actions: a folder is added before what it holds, and removed after it.
use drone_db.Base.{
  ◌≡◌, refl, Bool, true, false, ◌&&◌, List, [], ◌∷◌, arith, Text, lt, lt_asymm, lt_trans, All,
  All-map, ok, eqb, if_split,
}
use drone_db.Base.Sort.{IsOrder, IsSorted, sort-IsSorted}
use drone_db.Delta.{
  SimpleEntry, AddAction, RemoveAction, Delta, Stamp, by_path, by_path_descending, has_entry,
  collect_adds, get_delta,
}
use drone_db.Delta.Actions.{get_delta-eq-ok, entries_of}

-- `q` lies in the folder `p`: it goes on from `p` with a slash
abbrev pub is_inside : Text → Text → Bool
is_inside [] [] = false
is_inside [] (y ∷ ys) = eqb y b'/'
is_inside (x ∷ xs) [] = false
is_inside (x ∷ xs) (y ∷ ys) = eqb x y && is_inside xs ys

is_inside-lt : (p q : Text) → is_inside p q ≡ true → lt p q ≡ true
unfolding lt
is_inside-lt [] [] h = cc
is_inside-lt [] (y ∷ ys) h = refl
is_inside-lt (x ∷ xs) [] h = cc
is_inside-lt (x ∷ xs) (y ∷ ys) h = ground (arith, is_inside-lt xs ys)

not_inside : (p q : Text) → lt p q ≡ false → is_inside p q ≡ false
not_inside p q h = ground (arith, is_inside-lt p q)

by_path-IsOrder : IsOrder by_path
by_path-IsOrder = record {
  asymm = λ a b. lt_asymm a.path b.path;
  trans = λ a b c. lt_trans a.path b.path c.path;
}

by_path_descending-IsOrder : IsOrder by_path_descending
by_path_descending-IsOrder = record {
  asymm = λ a b. lt_asymm b.path a.path;
  trans = λ a b c h k. lt_trans c.path b.path a.path k h;
}

All-collect :
    (P : Text → Type 0) (es dst : List SimpleEntry)
    → All (λ e. P e.path) es
    → All (λ a. P a.path) (collect_adds es dst)
unfolding collect_adds
All-collect P [] dst h = tt
All-collect P (x ∷ es) dst h =
    if_split (All (λ a. P a.path)) (has_entry x.path x.hash dst) (All-collect P es dst h.1)
      (h.0, All-collect P es dst h.1)

abbrev pub add_inside : AddAction → AddAction → Bool
add_inside l r = is_inside l.path r.path

abbrev pub remove_holds : RemoveAction → RemoveAction → Bool
remove_holds l r = is_inside r.path l.path

collect-IsSorted :
    (es dst : List SimpleEntry) → IsSorted by_path es → IsSorted add_inside (collect_adds es dst)
unfolding collect_adds
collect-IsSorted [] dst h = tt
collect-IsSorted (x ∷ es) dst h =
    if_split (IsSorted add_inside) (has_entry x.path x.hash dst) (collect-IsSorted es dst h.1) (
      All-collect (λ q. is_inside q x.path ≡ false) es dst
          (All-map (λ e. lt e.path x.path ≡ false) (λ e. is_inside e.path x.path ≡ false) es
            (λ e. not_inside e.path x.path) h.0),
      collect-IsSorted es dst h.1,
    )

removes-IsSorted :
    (rs : List RemoveAction) → IsSorted by_path_descending rs → IsSorted remove_holds rs
removes-IsSorted [] h = tt
removes-IsSorted (x ∷ rs) h = (
  All-map (λ r. lt x.path r.path ≡ false) (λ r. is_inside x.path r.path ≡ false) rs
      (λ r. not_inside x.path r.path) h.0,
  removes-IsSorted rs h.1,
)

-- No addition is listed before that of a folder it lies in, and no removal of a folder before that
-- of something inside it.
pub folders_in_order :
    (s t : Stamp) (d : Delta)
    → get_delta s t ≡ ok d
    → IsSorted add_inside d.adds × IsSorted remove_holds d.removes
folders_in_order s t d e = rw (get_delta-eq-ok s t d e) (
  collect-IsSorted _ _ (sort-IsSorted by_path by_path-IsOrder (entries_of s)),
  removes-IsSorted _ (sort-IsSorted by_path_descending by_path_descending-IsOrder _),
)
