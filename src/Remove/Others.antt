-- ===== src/Remove/Others.antt =====
-- What `removeFromIndex` leaves.
use drone_db.Base.{
  ℕ, zero, suc, ◌≡◌, refl, ◌∙◌, inl, inr, Bool, true, false, Option, List, [], ◌∷◌, arith, Text,
  All, keep, max, if◌then◌else◌, Bool-cases, Result, ok, err,
}
use drone_db.Index.Table.{Entry, Table, find_row}
use drone_db.Transaction.{Connection, Fault}
use drone_db.Meta.{MetaRow}
use drone_db.Move.{Stored, is_folder}
use drone_db.Remove.{
  Deletion, Disk, pattern_of, match_pattern, matching, within_depth, joined, repeated, metas_of,
  with_builds, delete_call, then_call, delete_matches, some_match, then_path, matches_in,
  get_matching_entries, remove_from_index,
}
use drone_db.Remove.Delete.{DeletesOrNot, delete_from_index-DeletesOrNot}
use drone_db.Remove.Paths.{AtRest}

abbrev pub row_of : Text → Disk → Option Entry
row_of q (c, builds) = find_row q c.committed.entries

-- A step ends outside a transaction and leaves the row of `q`.
abbrev pub Stays : Text → Disk → Disk → Type 0
Stays q d d' = AtRest d' × (row_of q d' ≡ row_of q d)

module _ (like : Text → Text → Bool) (stuck : Text → Bool) (faults : Text → Bool → Fault × Fault)
    (q : Text) where
  -- Neither the pattern of the entry nor that of its contents matches.
  abbrev pub IsApart : Entry → Type 0
  IsApart e = (like (pattern_of e.path false) q ≡ false) × (like (pattern_of e.path true) q ≡ false)

  with_builds-Stays :
      (pattern : Text) (c : Connection Stored) (builds : Text → Bool)
      (out : Result Deletion × Connection Stored)
      → like pattern q ≡ false
      → DeletesOrNot like pattern c out
      → Stays q (c, builds) (with_builds stuck builds out).1
  with_builds-Stays pattern c builds (err e, c') l (w, inl (x, _, same_tables)) =
      (w, rw same_tables refl)
  with_builds-Stays pattern c builds (err e, c') l (w, inr (d, out, _, _, _, _, _)) = cc
  with_builds-Stays pattern c builds (ok d, c') l (w, inl (x, out, _)) = cc
  with_builds-Stays pattern c builds (ok d, c') l (w, inr (d0, out, _, _, _, rows, _)) =
      (w, ground (arith, rows q))

  delete_call-Stays :
      (query : Text) (in_folder : Bool) (d : Disk)
      → like (pattern_of query in_folder) q ≡ false
      → AtRest d
      → Stays q d (delete_call like stuck faults query in_folder d).1
  unfolding delete_call
  delete_call-Stays query in_folder (c, builds) l w =
      with_builds-Stays (pattern_of query in_folder) c builds _ l (
        delete_from_index-DeletesOrNot like (faults query in_folder).0 (faults query in_folder).1
          query in_folder c w)

  then_call-Stays :
      (d : Disk) (first : Result ℕ × Disk) (next : Disk → Result ℕ × Disk)
      → Stays q d first.1
      → ((d1 : Disk) → AtRest d1 → Stays q d1 (next d1).1)
      → Stays q d (then_call first next).1
  then_call-Stays d (err e, d1) next k n = k
  then_call-Stays d (ok x, d1) next k n = let (w, e) = n d1 k.0 in (w, e ∙ k.1)

  then_path-Stays :
      (d : Disk) (first : Result (Unit {0}) × Disk) (next : Disk → Result (Unit {0}) × Disk)
      → Stays q d first.1
      → ((d1 : Disk) → AtRest d1 → Stays q d1 (next d1).1)
      → Stays q d (then_path first next).1
  then_path-Stays d (err e, d1) next k n = k
  then_path-Stays d (ok x, d1) next k n = let (w, e) = n d1 k.0 in (w, e ∙ k.1)

  delete_matches-Stays :
      (es : List Entry) (d : Disk)
      → All IsApart es
      → AtRest d
      → Stays q d (delete_matches like stuck faults es d).1
  unfolding delete_matches
  delete_matches-Stays [] d a w = (w, refl)
  delete_matches-Stays (e ∷ es) d a w =
      let call =
        λ (in_folder : Bool) (d1 : Disk). delete_call like stuck faults e.path in_folder d1 in
      then_call-Stays d
        (if is_folder e.type then then_call (call false d) (call true) else call false d)
        (delete_matches like stuck faults es)
        (elim (Bool-cases (is_folder e.type)) [
          | inl t ↦ rw t (
              then_call-Stays d (call false d) (call true)
                (delete_call-Stays e.path false d a.0.0 w)
                (λ d1 w1. delete_call-Stays e.path true d1 a.0.1 w1))
          | inr f ↦ rw f (delete_call-Stays e.path false d a.0.0 w)
        ])
        (λ d1 w1. delete_matches-Stays es d1 a.1 w1)

  some_match-Stays :
      (d : Disk) (out : Result ℕ × Disk) → Stays q d out.1 → Stays q d (some_match out).1
  some_match-Stays d (err e, d1) h = h
  some_match-Stays d (ok zero, d1) h = h
  some_match-Stays d (ok (suc n), d1) h = h

  repeated-IsApart :
      (n : ℕ) (e : Entry) (es : List Entry)
      → IsApart e
      → All IsApart es
      → All IsApart (repeated n e es)
  repeated-IsApart zero e es h a = a
  repeated-IsApart (suc n) e es h a = (h, repeated-IsApart n e es h a)

  joined-IsApart :
      (pattern : Text) (metas : List MetaRow) (t : Table)
      → ((e : Entry) → like pattern e.path ≡ true → IsApart e)
      → All IsApart (joined metas (keep (within_depth 0) (matching like pattern t)))
  unfolding keep
  joined-IsApart pattern metas [] h = tt
  joined-IsApart pattern metas (e ∷ t) h = elim (Bool-cases (like pattern e.path)) [
    | inl l ↦ rw l (
        repeated-IsApart (max 1 (metas_of e.path metas)) e
          (joined metas (keep (within_depth 0) (matching like pattern t))) (h e l)
          (joined-IsApart pattern metas t h))
    | inr l ↦ rw l (joined-IsApart pattern metas t h)
  ]

  -- A removal, whether it throws or not, leaves the row of a path that no deletion for an entry that
  -- matches one of the given paths is for.
  pub other_rows_stay :
      (relative_to : Text → Text) (ps : List Text) (d : Disk)
      → All
          (λ p. (e : Entry) → like (match_pattern (relative_to p) false) e.path ≡ true → IsApart e)
          ps
      → AtRest d
      → Stays q d (remove_from_index like stuck faults relative_to ps d).1
  unfolding remove_from_index get_matching_entries
  other_rows_stay relative_to [] d a w = (w, refl)
  other_rows_stay relative_to (p ∷ ps) d a w =
      let es = matches_in like stuck faults (relative_to p) d in
      then_path-Stays d (some_match (delete_matches like stuck faults es d))
        (remove_from_index like stuck faults relative_to ps)
        (some_match-Stays d (delete_matches like stuck faults es d) (
          delete_matches-Stays es d
            (joined-IsApart (match_pattern (relative_to p) false) d.0.committed.metas
              d.0.committed.entries a.0)
            w))
        (λ d1 w1. other_rows_stay relative_to ps d1 a.1 w1)
