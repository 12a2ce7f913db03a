-- ===== src/Delta/Actions.antt =====
-- Which actions `getDelta` lists, and when it throws.
use drone_db.Base.{
  ◌≡◌, refl, ◌∙◌, Bool, true, false, ◌&&◌, not, ◌⊎◌, inl, inr, Option, none, some, List, [], ◌∷◌,
  map, arith, Text, same, same_iff, any, ok, err, invalid_args, is_some,
}
use drone_db.Base.Sort.{sort, any-sort}
use drone_db.Delta.{
  SimpleEntry, AddAction, RemoveAction, Delta, Stamp, simple_entry, by_path, by_path_descending,
  has_entry, has_path, is_directory, collect_adds, collect_removes, get_delta, ids_without,
}
use drone_db.Delta.Entries.{has_entry-sort, has_path-sort}

-- the entries of a stamp; none, where it has no `entries`
abbrev pub entries_of : Stamp → List SimpleEntry
entries_of s = elim s.entries [ none ↦ [] | some l ↦ map simple_entry l ]

abbrev pub meta_of : Stamp → List Text
meta_of s = elim s.meta [ none ↦ [] | some l ↦ l ]

unfoldable pub has_add : Text → Text → List AddAction → Bool
has_add p h xs = any (λ a. same a.hash h && same a.path p) xs

unfoldable pub has_remove : Text → Text → List RemoveAction → Bool
has_remove p h xs = any (λ r. same r.hash h && same r.path p) xs

pub has_add-collect :
    (p h : Text) (es dst : List SimpleEntry)
    → has_add p h (collect_adds es dst) ≡ (has_entry p h es && not (has_entry p h dst))
unfolding collect_adds has_add has_entry any
has_add-collect p h [] dst = refl
has_add-collect p h (x ∷ es) dst =
    ground (arith, has_add-collect p h es dst, same_iff x.hash h, same_iff x.path p)

-- What `get_delta` is, where both stamps have their two arrays.
abbrev pub delta_of : List SimpleEntry → List SimpleEntry → List Text → List Text → Delta
delta_of source destination source_meta destination_meta = record {
  adds = collect_adds (sort by_path source) (sort by_path destination);
  removes =
      sort by_path_descending (collect_removes (sort by_path source) (sort by_path destination));
  meta_adds = ids_without source_meta destination_meta;
  meta_removes = ids_without destination_meta source_meta;
}

pub get_delta-eq-ok :
    (s t : Stamp) (d : Delta)
    → get_delta s t ≡ ok d
    → d ≡ delta_of (entries_of s) (entries_of t) (meta_of s) (meta_of t)
unfolding get_delta
get_delta-eq-ok s t d e = ground arith

-- The listed additions are the entries of the source that the destination does not have with the
-- same path and hash.
pub adds_exact :
    (s t : Stamp) (d : Delta) (p h : Text)
    → get_delta s t ≡ ok d
    → has_add p h d.adds ≡ (has_entry p h (entries_of s) && not (has_entry p h (entries_of t)))
adds_exact s t d p h e = rw (get_delta-eq-ok s t d e) (
    has_add-collect p h _ _
    ∙ rw (has_entry-sort p h (entries_of s), has_entry-sort p h (entries_of t)))

has_remove-collect :
    (p h : Text) (src es : List SimpleEntry)
    → has_remove p h (collect_removes src es)
      ≡ (has_entry p h es && not (has_path p (is_directory h) src))
unfolding collect_removes has_remove has_entry any
has_remove-collect p h src [] = refl
has_remove-collect p h src (x ∷ es) =
    ground (arith, has_remove-collect p h src es, same_iff x.hash h, same_iff x.path p)

has_remove-sort :
    (p h : Text) (xs : List RemoveAction)
    → has_remove p h (sort by_path_descending xs) ≡ has_remove p h xs
unfolding has_remove
has_remove-sort p h xs = any-sort by_path_descending _ xs

-- The listed removals are the entries of the destination whose path the source does not have for
-- an entry of the same kind, file or folder.
pub removes_exact :
    (s t : Stamp) (d : Delta) (p h : Text)
    → get_delta s t ≡ ok d
    → has_remove p h d.removes
      ≡ (has_entry p h (entries_of t) && not (has_path p (is_directory h) (entries_of s)))
removes_exact s t d p h e = rw (get_delta-eq-ok s t d e) (
    has_remove-sort p h _
    ∙ has_remove-collect p h _ _
    ∙ rw (has_entry-sort p h (entries_of t), has_path-sort p (is_directory h) (entries_of s)))

total_at :
    (a b : Option (List (Text × Text))) (m n : Option (List Text))
    → ((d : Delta) × (get_delta
            (record { entries = a; meta = m })
            (record { entries = b; meta = n })
          ≡ ok d)
        × (is_some a && is_some b && is_some m && is_some n ≡ true))
      ⊎ ((get_delta (record { entries = a; meta = m }) (record { entries = b; meta = n })
            ≡ err invalid_args)
          × (is_some a && is_some b && is_some m && is_some n ≡ false))
unfolding get_delta
total_at none b m n = inr (refl, refl)
total_at (some a) none m n = inr (refl, refl)
total_at (some a) (some b) none n = inr (refl, refl)
total_at (some a) (some b) (some m) none = inr (refl, refl)
total_at (some a) (some b) (some m) (some n) =
    inl (delta_of (map simple_entry a) (map simple_entry b) m n, refl, refl)

-- `getDelta` throws, and then an invalid-arguments exception, exactly when one of the two stamps
-- lacks its entries or its meta.
pub get_delta_total :
    (s t : Stamp)
    → ((d : Delta) × (get_delta s t ≡ ok d)
        × (is_some s.entries && is_some t.entries && is_some s.meta && is_some t.meta ≡ true))
      ⊎ ((get_delta s t ≡ err invalid_args)
          × (is_some s.entries && is_some t.entries && is_some s.meta && is_some t.meta ≡ false))
get_delta_total s t = total_at s.entries t.entries s.meta t.meta
