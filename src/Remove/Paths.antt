-- ===== src/Remove/Paths.antt =====
-- What is gone after `removeFromIndex`.
use drone_db.Base.{
  ℕ, zero, suc, ◌+◌, ◌≡◌, refl, sym, ap, ◌∙◌, ◌⊎◌, inl, inr, Bool, true, false, none, List, [], ◌∷◌,
  arith, Text, same, same_iff, any, if◌then◌else◌, Bool-cases, Result, ok, err, subst,
}
use drone_db.Index.Table.{Entry, find_row}
use drone_db.Transaction.{Connection, Fault}
use drone_db.Move.{Stored, is_folder}
use drone_db.Remove.{
  Deletion, Disk, pattern_of, match_pattern, with_builds, delete_call, then_call, delete_matches,
  some_match, then_path, matches_in, get_matching_entries, remove_from_index,
}
use drone_db.Remove.Matches.{is_among, is_among-joined}
use drone_db.Remove.Delete.{DeletesOrNot, delete_from_index-DeletesOrNot}

abbrev pub IsGone : Text → Disk → Type 0
IsGone q (c, builds) = find_row q c.committed.entries ≡ none

abbrev pub AtRest : Disk → Type 0
AtRest (c, builds) = c.working ≡ none

-- A step ends outside a transaction, and brings no row back.
abbrev pub Keeps : Disk → Disk → Type 0
Keeps d d' = AtRest d' × ((q : Text) → IsGone q d → IsGone q d')

module _ (like : Text → Text → Bool) (stuck : Text → Bool)
    (faults : Text → Bool → Fault × Fault) where
  with_builds-Keeps :
      (pattern : Text) (c : Connection Stored) (builds : Text → Bool)
      (out : Result Deletion × Connection Stored)
      → DeletesOrNot like pattern c out
      → Keeps (c, builds) (with_builds stuck builds out).1
        × ((n : ℕ) (q : Text)
            → (with_builds stuck builds out).0 ≡ ok n
            → like pattern q ≡ true
            → IsGone q (with_builds stuck builds out).1)
  with_builds-Keeps pattern c builds (err e, c') (w, inl (x, _, same_tables)) =
      ((w, λ q h. rw same_tables h), λ n q h l. cc)
  with_builds-Keeps pattern c builds (err e, c') (w, inr (d, out, _, _, _, _, _)) = cc
  with_builds-Keeps pattern c builds (ok d, c') (w, inl (x, out, _)) = cc
  with_builds-Keeps pattern c builds (ok d, c') (w, inr (d0, out, _, _, _, rows, _)) =
      ((w, λ q h. ground (arith, rows q)), λ n q h l. ground (arith, rows q))

  delete_call-Keeps :
      (query : Text) (in_folder : Bool) (d : Disk)
      → AtRest d
      → Keeps d (delete_call like stuck faults query in_folder d).1
        × ((n : ℕ) (q : Text)
            → (delete_call like stuck faults query in_folder d).0 ≡ ok n
            → like (pattern_of query in_folder) q ≡ true
            → IsGone q (delete_call like stuck faults query in_folder d).1)
  unfolding delete_call
  delete_call-Keeps query in_folder (c, builds) w =
      with_builds-Keeps (pattern_of query in_folder) c builds _ (
        delete_from_index-DeletesOrNot like (faults query in_folder).0 (faults query in_folder).1
          query in_folder c w)

  then_call-Keeps :
      (d : Disk) (first : Result ℕ × Disk) (next : Disk → Result ℕ × Disk)
      → Keeps d first.1
      → ((d1 : Disk) → AtRest d1 → Keeps d1 (next d1).1)
      → Keeps d (then_call first next).1
  then_call-Keeps d (err e, d1) next k n = k
  then_call-Keeps d (ok x, d1) next k n = let (w, gone) = n d1 k.0 in (w, λ q h. gone q (k.1 q h))

  entry_call : Entry → Disk → Result ℕ × Disk
  entry_call e d =
      if is_folder e.type
      then then_call (delete_call like stuck faults e.path false d)
          (delete_call like stuck faults e.path true)
      else delete_call like stuck faults e.path false d

  -- What the first call has removed stays away.
  then_call-IsGone :
      (first : Result ℕ × Disk) (next : Disk → Result ℕ × Disk) (q : Text) (n : ℕ)
      → AtRest first.1
      → ((d1 : Disk) → AtRest d1 → Keeps d1 (next d1).1)
      → ((m : ℕ) → first.0 ≡ ok m → IsGone q first.1)
      → (then_call first next).0 ≡ ok n
      → IsGone q (then_call first next).1
  then_call-IsGone (err e, d) next q n w k g h = cc
  then_call-IsGone (ok m, d) next q n w k g h = (k d w).1 q (g m refl)

  -- What the next call removes is gone after both.
  then_call-IsGone_next :
      (first : Result ℕ × Disk) (next : Disk → Result ℕ × Disk) (q : Text) (n : ℕ)
      → AtRest first.1
      → ((d1 : Disk) (m : ℕ) → AtRest d1 → (next d1).0 ≡ ok m → IsGone q (next d1).1)
      → (then_call first next).0 ≡ ok n
      → IsGone q (then_call first next).1
  then_call-IsGone_next (err e, d) next q n w g h = cc
  then_call-IsGone_next (ok m, d) next q n w g h =
      let (k, e) = returned (next d).0 m n h in g d k w e
    where
      returned :
          (x : Result ℕ) (m n : ℕ)
          → elim x [ ok k ↦ ok (m + k) | err e ↦ err e ] ≡ ok n
          → (k : ℕ) × (x ≡ ok k)
      returned (ok k) m n h = (k, refl)
      returned (err e) m n h = cc

  module _ (like_own : (q : Text) → like (pattern_of q false) q ≡ true) where
    entry_call-Keeps :
        (e : Entry) (d : Disk)
        → AtRest d
        → Keeps d (entry_call e d).1
          × ((n : ℕ) → (entry_call e d).0 ≡ ok n → IsGone e.path (entry_call e d).1)
    unfolding entry_call
    entry_call-Keeps e d w =
        let (first, gone) = delete_call-Keeps e.path false d w in
        let next = λ (d1 : Disk) (w1 : AtRest d1). (delete_call-Keeps e.path true d1 w1).0 in
        elim (Bool-cases (is_folder e.type)) [
          | inl t ↦ rw t (
            then_call-Keeps d (delete_call like stuck faults e.path false d)
                (delete_call like stuck faults e.path true) first next,
            λ n h.
                then_call-IsGone (delete_call like stuck faults e.path false d)
                  (delete_call like stuck faults e.path true) e.path n first.0 next
                  (λ m r. gone m e.path r (like_own e.path)) h,
          )
          | inr f ↦ rw f (first, λ n h. gone n e.path h (like_own e.path))
        ]

    delete_matches-Keeps :
        (es : List Entry) (d : Disk) → AtRest d → Keeps d (delete_matches like stuck faults es d).1
    unfolding delete_matches entry_call
    delete_matches-Keeps [] d w = (w, λ q h. h)
    delete_matches-Keeps (e ∷ es) d w =
        then_call-Keeps d (entry_call e d) (delete_matches like stuck faults es)
          (entry_call-Keeps e d w).0 (delete_matches-Keeps es)

    delete_matches-IsGone :
        (es : List Entry) (d : Disk) (q : Text) (n : ℕ)
        → AtRest d
        → is_among q es ≡ true
        → (delete_matches like stuck faults es d).0 ≡ ok n
        → IsGone q (delete_matches like stuck faults es d).1
    unfolding delete_matches entry_call any
    delete_matches-IsGone [] d q n w a h = cc
    delete_matches-IsGone (e ∷ es) d q n w a h =
        let (kept, gone) = entry_call-Keeps e d w in
        elim (Bool-cases (same e.path q)) [
          | inl t ↦
              then_call-IsGone (entry_call e d) (delete_matches like stuck faults es) q n kept.0
                (delete_matches-Keeps es)
                (λ m r.
                  subst (λ x. IsGone x (entry_call e d).1) ((same_iff e.path q).0 t) (gone m r))
                h
          | inr f ↦
              then_call-IsGone_next (entry_call e d) (delete_matches like stuck faults es) q n
                kept.0 (λ d1 m w1 r. delete_matches-IsGone es d1 q m w1 (ground arith) r) h
        ]

    is_among-matches_in :
        (q r : Text) (d : Disk)
        → like (match_pattern r false) q ≡ true
        → IsGone q d ⊎ (is_among q (matches_in like stuck faults r d) ≡ true)
    unfolding get_matching_entries
    is_among-matches_in q r (c, builds) l =
        is_among-joined like q (match_pattern r false) c.committed.metas c.committed.entries l

    some_match-ok :
        (out : Result ℕ × Disk)
        → (some_match out).0 ≡ ok tt
        → (n : ℕ) × (out.0 ≡ ok n) × ((some_match out).1 ≡ out.1)
    some_match-ok (err e, d) h = cc
    some_match-ok (ok zero, d) h = cc
    some_match-ok (ok (suc n), d) h = (suc n, refl, refl)

    some_match-disk : (out : Result ℕ × Disk) → (some_match out).1 ≡ out.1
    some_match-disk (err e, d) = refl
    some_match-disk (ok zero, d) = refl
    some_match-disk (ok (suc n), d) = refl

    then_path-Keeps :
        (d : Disk) (first : Result (Unit {0}) × Disk) (next : Disk → Result (Unit {0}) × Disk)
        → Keeps d first.1
        → ((d1 : Disk) → AtRest d1 → Keeps d1 (next d1).1)
        → Keeps d (then_path first next).1
    then_path-Keeps d (err e, d1) next k n = k
    then_path-Keeps d (ok x, d1) next k n = let (w, gone) = n d1 k.0 in (w, λ q h. gone q (k.1 q h))

    then_path-ok :
        (first : Result (Unit {0}) × Disk) (next : Disk → Result (Unit {0}) × Disk)
        → (then_path first next).0 ≡ ok tt
        → (first.0 ≡ ok tt) × (then_path first next ≡ next first.1)
    then_path-ok (err e, d) next h = cc
    then_path-ok (ok x, d) next h = (refl, refl)

    module _ (relative_to : Text → Text) where
      pub remove_from_index-Keeps :
          (ps : List Text) (d : Disk)
          → AtRest d
          → Keeps d (remove_from_index like stuck faults relative_to ps d).1
      unfolding remove_from_index
      remove_from_index-Keeps [] d w = (w, λ q h. h)
      remove_from_index-Keeps (p ∷ ps) d w =
          let es = matches_in like stuck faults (relative_to p) d in
          then_path-Keeps d (some_match (delete_matches like stuck faults es d))
            (remove_from_index like stuck faults relative_to ps)
            (rw (some_match-disk (delete_matches like stuck faults es d))
              (delete_matches-Keeps es d w))
            (remove_from_index-Keeps ps)

      -- After a removal that does not throw, no row is left of a path that one of the given paths
      -- matches as a pattern, where a pattern matches the path that it is made of.
      pub remove_from_index-IsGone :
          (ps : List Text) (d : Disk) (q : Text)
          → AtRest d
          → any (λ p. like (match_pattern (relative_to p) false) q) ps ≡ true
          → (remove_from_index like stuck faults relative_to ps d).0 ≡ ok tt
          → IsGone q (remove_from_index like stuck faults relative_to ps d).1
      unfolding remove_from_index any
      remove_from_index-IsGone [] d q w m h = cc
      remove_from_index-IsGone (p ∷ ps) d q w m h =
          let es = matches_in like stuck faults (relative_to p) d in
          let out = delete_matches like stuck faults es d in
          let (first, all) =
            then_path-ok (some_match out) (remove_from_index like stuck faults relative_to ps) h in
          let (n, deleted, _) = some_match-ok out first in
          let result =
            all ∙ ap (remove_from_index like stuck faults relative_to ps) (some_match-disk out) in
          let kept = delete_matches-Keeps es d w in
          subst (λ (x : Result (Unit {0}) × Disk). IsGone q x.1) (sym result)
            (elim (Bool-cases (like (match_pattern (relative_to p) false) q)) [
              | inl t ↦
                  (remove_from_index-Keeps ps out.1 kept.0).1 q
                    (elim (is_among-matches_in q (relative_to p) d t) [
                      | inl gone ↦ kept.1 q gone
                      | inr among ↦ delete_matches-IsGone es d q n w among deleted
                    ])
              | inr f ↦
                  remove_from_index-IsGone ps out.1 q kept.0 (ground arith)
                    (sym (ap (λ (x : Result (Unit {0}) × Disk). x.0) result) ∙ h)
            ])
