-- ===== src/Build/Exact.antt =====
-- `cleanupBuild` as a whole: what its result says of the index, and what is left of the build directory.
use drone_db.Base.{
  ◌≡◌, refl, Bool, true, false, ◌||◌, Option, none, some, List, [], ◌∷◌, Text, any, All, Result, ok,
  err,
}
use drone_db.Index.Table.{Table}
use drone_db.Transaction.{Fault}
use drone_db.Remove.{Disk, pattern_of, match_pattern, remove_from_index}
use drone_db.Remove.Paths.{IsGone, AtRest, remove_from_index-IsGone, remove_from_index-Keeps}
use drone_db.Build.Cleanup.{
  Item, missing_paths, valid_hashes, reported, remove_missing, second_phase, cleanup_build,
}
use drone_db.Build.Kept.{is_protected, is_unremovable, Stays, protected-Stays, left_for_a_reason}

module _ (exists : Text → Bool) (probe : Text → Result (Unit {0})) (extension stem : Text → Text)
    (is_stuck : Text → Bool) (build_dir : Text) where
  -- Each protected item of the listing is still there with what is in it, orphan scratch folders apart,
  -- and each that is left is protected or could not be removed.
  abbrev pub IsLeft : Table → Option (List Item) → Option (List Item) → Type 0
  IsLeft t none after = after ≡ none
  IsLeft t (some items) none = ⊥
  IsLeft t (some items) (some left) =
      All
        (λ (i : Item).
          is_protected exists probe extension stem is_stuck build_dir (valid_hashes t) i.name i.node
            ≡ true
          → Stays exists probe extension stem is_stuck build_dir (valid_hashes t) i.name i.node
              left)
        items
      × All
          (λ (i : Item).
            is_protected exists probe extension stem is_stuck build_dir (valid_hashes t) i.name
                i.node
              || is_unremovable exists probe extension stem is_stuck build_dir (valid_hashes t)
                  i.name i.node
            ≡ true)
          left

module _ (exists : Text → Bool) (probe : Text → Result (Unit {0})) (extension stem : Text → Text)
    (is_stuck : Text → Bool) (build_dir : Text) (like : Text → Text → Bool) (stuck : Text → Bool)
    (faults : Text → Bool → Fault × Fault) (relative_to absolute : Text → Text) where
  abbrev removal : List Text → Disk → List Text × Disk
  removal ps d =
      remove_missing exists probe extension stem is_stuck build_dir like stuck faults relative_to
        absolute ps d

  module _ (like_own : (q : Text) → like (pattern_of q false) q ≡ true)
      (like_match : (q : Text) → like (match_pattern q false) q ≡ true)
      (round : (p : Text) → relative_to (absolute p) ≡ p) where
    one-IsGone :
        (p : Text) (d : Disk)
        → AtRest d
        → (remove_from_index like stuck faults relative_to (absolute p ∷ []) d).0 ≡ ok tt
        → IsGone p (remove_from_index like stuck faults relative_to (absolute p ∷ []) d).1
    unfolding any
    one-IsGone p d w h =
        remove_from_index-IsGone like stuck faults like_own relative_to (absolute p ∷ []) d p w
          (rw (round p, like_match p) refl) h

    remove_missing-Keeps :
        (ps : List Text) (d : Disk)
        → AtRest d
        → AtRest (removal ps d).1 × ((q : Text) → IsGone q d → IsGone q (removal ps d).1)
    unfolding remove_missing
    remove_missing-Keeps [] d w = (w, λ q h. h)
    remove_missing-Keeps (p ∷ ps) d w =
        let out = remove_from_index like stuck faults relative_to (absolute p ∷ []) d in
        let kept =
          remove_from_index-Keeps like stuck faults like_own relative_to (absolute p ∷ []) d w in
        let rest = remove_missing-Keeps ps out.1 kept.0 in (rest.0, λ q h. rest.1 q (kept.1 q h))

    reported-All :
        (P : Text → Type 0) (p : Text) (out : Result (Unit {0})) (rest : List Text)
        → (out ≡ ok tt → P p)
        → All P rest
        → All P (reported p out rest)
    reported-All P p (ok tt) rest h a = (h refl, a)
    reported-All P p (err e) rest h a = a

    remove_missing-IsGone :
        (ps : List Text) (d : Disk)
        → AtRest d
        → All (λ p. IsGone p (removal ps d).1) (removal ps d).0
    unfolding remove_missing
    remove_missing-IsGone [] d w = tt
    remove_missing-IsGone (p ∷ ps) d w =
        let out = remove_from_index like stuck faults relative_to (absolute p ∷ []) d in
        let kept =
          remove_from_index-Keeps like stuck faults like_own relative_to (absolute p ∷ []) d w in
        reported-All (λ q. IsGone q (removal ps out.1).1) p out.0 (removal ps out.1).0
          (λ h. (remove_missing-Keeps ps out.1 kept.0).1 p (one-IsGone p d w h))
          (remove_missing-IsGone ps out.1 kept.0)

    second_phase-IsLeft :
        (listing : Option (List Item)) (first : List Text × Disk)
        → IsLeft exists probe extension stem is_stuck build_dir first.1.0.committed.entries listing
            (second_phase exists probe extension stem is_stuck build_dir like stuck faults
              relative_to absolute listing first).1.1
    second_phase-IsLeft none (gone, d) = refl
    second_phase-IsLeft (some items) (gone, (c, builds)) = (
      protected-Stays exists probe extension stem is_stuck build_dir
          (valid_hashes c.committed.entries) items,
      left_for_a_reason exists probe extension stem is_stuck build_dir
          (valid_hashes c.committed.entries) items,
    )

    second_phase-disk :
        (listing : Option (List Item)) (first : List Text × Disk)
        → let out =
            second_phase exists probe extension stem is_stuck build_dir like stuck faults
              relative_to absolute listing first in
          (out.0.removed_entries ≡ first.0) × (out.1.0 ≡ first.1)
    second_phase-disk none (gone, d) = (refl, refl)
    second_phase-disk (some items) (gone, (c, builds)) = (refl, refl)

    -- The index is at rest, a pattern of `removeFromIndex` matches the path it is made of, and
    -- `relative_to` undoes `absolute`. Then the index is at rest after a cleanup, no row is left of an
    -- entry that the result reports as removed, no row has come, each item of the build directory that
    -- is not of a build, or is of the build of an entry of the index as it then stands, is still
    -- there with its files and folders, where a folder of a build loses those scratch folders that no
    -- live lock holds and that can be removed, and no other; and each item that is left either is such an item, is held by a lock, or could not be
    -- scanned or removed.
    pub cleanup_removes_just_orphans :
        (present : Text → Option Bool) (listing : Disk → Option (List Item)) (d : Disk)
        → AtRest d
        → let out =
            cleanup_build exists probe extension stem is_stuck build_dir like stuck faults
              relative_to absolute present listing d in
          AtRest out.1.0
          × All (λ p. IsGone p out.1.0) out.0.removed_entries
          × ((q : Text) → IsGone q d → IsGone q out.1.0)
          × IsLeft exists probe extension stem is_stuck build_dir out.1.0.0.committed.entries
              (listing out.1.0)
              out.1.1
    unfolding cleanup_build
    cleanup_removes_just_orphans present listing d w =
        let ps = missing_paths present d.0.committed.entries in
        let first = removal ps d in
        let kept = remove_missing-Keeps ps d w in
        let same_state = second_phase-disk (listing first.1) first in
        rw (same_state.0, same_state.1)
          (
            kept.0,
            remove_missing-IsGone ps d w,
            kept.1,
            second_phase-IsLeft (listing first.1) first,
          )
