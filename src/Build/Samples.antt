-- ===== src/Build/Samples.antt =====
-- A cleanup, and builds that wait. The index has a file that is gone and one that is there; the build
-- directory has a folder for each. LIKE matches a path by its own pattern.
use drone_db.Base.{
  ℕ, zero, suc, ◌≡◌, refl, ap, Bool, true, false, ◌||◌, not, Option, none, some, List, [], ◌∷◌,
  Text, same, same_refl, bytes, all, All, keep, length, arith, Result, ok, err, build_in_progress,
}
use drone_db.Index.Table.{generic, empty_entry, find_row}
use drone_db.Transaction.{Fault}
use drone_db.Remove.{Disk, pattern_of, match_pattern}
use drone_db.Remove.Paths.{IsGone, AtRest}
use drone_db.Build.Cleanup.{directory_node, Item, CleanupResult, cleanup_build}
use drone_db.Build.Exact.{IsLeft, cleanup_removes_just_orphans}
use drone_db.Build.Pending.{is_timestamp_char, pending_text}
use drone_db.Build.Runs.{build_pending}
use drone_db.Build.Waiting.{waiting_builds_are_not_retried}
use drone_db.Build.Tests.{Bits, bits, seen_bits, ready_tools, site, no_parent, shx, as_shp, rows}

abbrev like_own : Text → Text → Bool
like_own pattern q = same pattern (pattern_of q false) || same pattern (match_pattern q false)

like_pattern : (q : Text) → like_own (pattern_of q false) q ≡ true
like_pattern q = ground (arith, same_refl (pattern_of q false))

like_match : (q : Text) → like_own (match_pattern q false) q ≡ true
like_match q = ground (arith, same_refl (match_pattern q false))

abbrev hash_a : Text
hash_a = bytes "aaaaaaaaaaaaaaaaaaaaaaaaaaaaaaaaaaaaaaaaaaaaaaaaaaaaaaaaaaaaaaaa"

abbrev hash_b : Text
hash_b = bytes "bbbbbbbbbbbbbbbbbbbbbbbbbbbbbbbbbbbbbbbbbbbbbbbbbbbbbbbbbbbbbbbb"

abbrev disk : Disk
disk = (
  record {
    committed = record {
      entries =
          record empty_entry { path = bytes "gone"; hash = hash_b; type = generic }
          ∷ record empty_entry { path = bytes "there"; hash = hash_a; type = generic }
          ∷ [];
      metas = [];
    };
    working = none;
  },
  λ h. true,
)

abbrev folder : Text → Item
folder name = record {
  name = name;
  node = directory_node (record { scan_fails = false; files = []; folders = [] });
}

abbrev never : Text → Bool
never p = false

abbrev held : Text → Result (Unit {0})
held p = err build_in_progress

abbrev no_faults : Text → Bool → Fault × Fault
no_faults q in_folder = (none, none)

abbrev given : Text → Text
given p = p

abbrev present : Text → Option Bool
present p = some (not (same p (bytes "gone")))

abbrev listing : Disk → Option (List Item)
listing d = some (folder hash_a ∷ folder hash_b ∷ [])

abbrev cleaned : CleanupResult × (Disk × Option (List Item))
cleaned =
    cleanup_build never held given given never (bytes "b") like_own never no_faults given given
      present listing disk

cleanup_removes_just_orphans_example :
    AtRest cleaned.1.0
    × All (λ p. IsGone p cleaned.1.0) cleaned.0.removed_entries
    × ((q : Text) → IsGone q disk → IsGone q cleaned.1.0)
    × IsLeft never held given given never
        (bytes "b")
        cleaned.1.0.0.committed.entries
        (listing cleaned.1.0)
        cleaned.1.1
cleanup_removes_just_orphans_example =
    cleanup_removes_just_orphans never held given given never (bytes "b") like_own never no_faults
      given given like_pattern like_match (λ p. refl) present listing disk refl

-- a number as that many digits
abbrev tally : ℕ → Text
tally zero = []
tally (suc n) = b'1' ∷ tally n

abbrev count : Text → Option ℕ
count s = some (length s)

tally-digits : (n : ℕ) → all is_timestamp_char (tally n) ≡ true
unfolding all
tally-digits zero = refl
tally-digits (suc n) = tally-digits n

count-tally : (n : ℕ) → count (tally n) ≡ some n
count-tally n = ap some (length-tally n)
  where
    length-tally : (n : ℕ) → length (tally n) ≡ n
    length-tally zero = refl
    length-tally (suc n) = ap suc (length-tally n)

abbrev pending_file : Bits → List Text
pending_file t = bytes "b/h.pending" ∷ []

abbrev pending_content : Bits → Text → Option Text
pending_content t p = some (pending_text tally 3 (bytes "a.mtl" ∷ []))

abbrev hash_h : Text → Text
hash_h p = bytes "h"

waiting_builds_are_not_retried_example :
    build_pending
      (bits (bytes "b"))
      (seen_bits (bytes "b"))
      ready_tools
      site
      no_parent
      shx
      as_shp
      []
      (bytes "b")
      (bytes "x")
      rows
      count
      pending_file
      pending_content
      hash_h
      1000
      false
      (false, true)
    ≡ (ok tt, (false, true))
unfolding keep all same find_row
waiting_builds_are_not_retried_example =
    waiting_builds_are_not_retried (bits (bytes "b")) (seen_bits (bytes "b")) ready_tools site
      no_parent shx as_shp [] (bytes "b") (bytes "x") rows count pending_file pending_content hash_h
      1000 tally tally-digits count-tally (false, true)
      ((3, bytes "a.mtl" ∷ [], refl, (refl, tt), refl), tt)
