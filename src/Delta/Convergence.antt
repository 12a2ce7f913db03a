-- ===== src/Delta/Convergence.antt =====
-- A destination that carries out the actions ends with the entries of the source.
use drone_db.Base.{
  ◌≡◌, Bool, true, false, ◌&&◌, ◌||◌, not, inl, inr, List, [], ◌∷◌, arith, Text, same, same_refl,
  any, Bool-cases, ok,
}
use drone_db.Delta.{
  SimpleEntry, AddAction, RemoveAction, Delta, Stamp, has_entry, is_directory, get_delta,
}
use drone_db.Delta.Entries.{has_path_of_entry, entry_of_path}
use drone_db.Delta.Actions.{has_add, has_remove, entries_of, adds_exact, removes_exact}

abbrev pub adds_path : Text → List AddAction → Bool
adds_path p xs = any (λ a. same a.path p) xs

abbrev pub removes_path : Text → List RemoveAction → Bool
removes_path p xs = any (λ r. same r.path p) xs

-- Whether the path has the hash once the removals and then the additions are carried out on
-- `entries`: an addition replaces what its path had.
pub after_delta : Delta → List SimpleEntry → Text → Text → Bool
after_delta d entries p h =
    has_add p h d.adds
    || (has_entry p h entries && not (removes_path p d.removes) && not (adds_path p d.adds))

-- A path has at most one entry, as `path` is the primary key of the table.
abbrev pub HasUniquePaths : Stamp → Type 0
HasUniquePaths s =
    (p h k : Text)
    → has_entry p h (entries_of s) ≡ true
    → has_entry p k (entries_of s) ≡ true
    → h ≡ k

add_of_path :
    (p : Text) (xs : List AddAction) → adds_path p xs ≡ true → (h : Text) × (has_add p h xs ≡ true)
unfolding any has_add
add_of_path p [] e = cc
add_of_path p (x ∷ xs) e = elim (Bool-cases (same x.path p)) [
  | inl hit ↦ (x.hash, ground (arith, same_refl x.hash))
  | inr miss ↦ let (h, found) = add_of_path p xs (ground arith) in (h, ground arith)
]

remove_of_path :
    (p : Text) (xs : List RemoveAction)
    → removes_path p xs ≡ true
    → (h : Text) × (has_remove p h xs ≡ true)
unfolding any has_remove
remove_of_path p [] e = cc
remove_of_path p (x ∷ xs) e = elim (Bool-cases (same x.path p)) [
  | inl hit ↦ (x.hash, ground (arith, same_refl x.hash))
  | inr miss ↦ let (h, found) = remove_of_path p xs (ground arith) in (h, ground arith)
]

path_of_add : (p h : Text) (xs : List AddAction) → has_add p h xs ≡ true → adds_path p xs ≡ true
unfolding any has_add
path_of_add p h [] e = e
path_of_add p h (x ∷ xs) e = ground (arith, path_of_add p h xs)

path_of_remove :
    (p h : Text) (xs : List RemoveAction) → has_remove p h xs ≡ true → removes_path p xs ≡ true
unfolding any has_remove
path_of_remove p h [] e = e
path_of_remove p h (x ∷ xs) e = ground (arith, path_of_remove p h xs)

module _ (s t : Stamp) (d : Delta) (us : HasUniquePaths s) (ut : HasUniquePaths t)
    (e : get_delta s t ≡ ok d) where
  abbrev src : List SimpleEntry
  src = entries_of s

  abbrev dst : List SimpleEntry
  dst = entries_of t

  -- An entry that both stamps have is left alone.
  kept_alone :
      (p h : Text)
      → has_entry p h src ≡ true
      → has_entry p h dst ≡ true
      → (removes_path p d.removes ≡ false) × (adds_path p d.adds ≡ false)
  kept_alone p h a b = (
    elim (Bool-cases (removes_path p d.removes)) [
      | inl r ↦
          let (k, found) = remove_of_path p d.removes r in
          let same_hash = ut p k h (ground (arith, removes_exact s t d p k e)) b in
          ground (arith, removes_exact s t d p k e, has_path_of_entry p h src)
      | inr r ↦ r
    ],
    elim (Bool-cases (adds_path p d.adds)) [
      | inl r ↦
          let (k, found) = add_of_path p d.adds r in
          let same_hash = us p k h (ground (arith, adds_exact s t d p k e)) a in
          ground (arith, adds_exact s t d p k e)
      | inr r ↦ r
    ],
  )

  -- An entry that is left alone is in the source.
  alone_in_source :
      (p h : Text)
      → has_entry p h dst ≡ true
      → removes_path p d.removes ≡ false
      → adds_path p d.adds ≡ false
      → has_entry p h src ≡ true
  alone_in_source p h b r a =
      let unremoved : has_remove p h d.removes ≡ false =
        ground (arith, path_of_remove p h d.removes) in
      let (k, found, kind) =
        entry_of_path p (is_directory h) src (ground (arith, removes_exact s t d p h e)) in
      let unadded : has_add p k d.adds ≡ false = ground (arith, path_of_add p k d.adds) in
      let there : has_entry p k dst ≡ true = ground (arith, adds_exact s t d p k e) in
      ground (arith, ut p h k b there)

  -- Carried out on the destination's entries, the delta gives the source's entries: the same paths
  -- with the same hashes, where a path has one entry at most in either stamp.
  pub get_delta_converges : (p h : Text) → after_delta d dst p h ≡ has_entry p h src
  unfolding after_delta
  get_delta_converges p h =
      ground (arith, adds_exact s t d p h e, kept_alone p h, alone_in_source p h)
