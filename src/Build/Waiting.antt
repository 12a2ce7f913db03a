-- ===== src/Build/Waiting.antt =====
-- Builds that wait for a dependency, from the failed build to `buildPending`.
use drone_db.Base.{
  ℕ, ◌+◌, ◌≡◌, refl, true, false, ◌||◌, not, Option, some, List, [], ◌∷◌, Text, ltb, all, All, keep,
  ok, Bool-cases, inl, inr,
}
use drone_db.Index.Table.{Table}
use drone_db.Meta.{is_blank}
use drone_db.Mio.{Tree}
use drone_db.Build.Output.{Sight}
use drone_db.Build.Internal.{Tools, Site}
use drone_db.Build.Pending.{
  is_timestamp_char, IsOneLine, pending_text, parse_pending_file-pending_text,
}
use drone_db.Build.Runs.{is_indexed, each, retry_pending, build_pending}

module _ {T : Type 0} (tree : Tree T) (sight : Sight T) (tools : Tools T) (site : Site T)
    (parent_name extension : Text → Text) (with_extension : Text → Text → Text)
    (root build_directory random : Text) (table : Table) (stoll : Text → Option ℕ)
    (files : T → List Text) (text_of : T → Text → Option Text) (hash_of : Text → Text) (now : ℕ)
    (print : ℕ → Text) (digits : (n : ℕ) → all is_timestamp_char (print n) ≡ true)
    (reads : (n : ℕ) → stoll (print n) ≡ some n) where
  -- What a failed build wrote at `time`, for dependencies of which one is not indexed, or less than
  -- five minutes ago.
  abbrev pub IsWaiting : T → Text → Type 0
  IsWaiting t p =
      (time : ℕ) × (deps : List Text) × (text_of t p ≡ some (pending_text print time deps))
      × All (IsOneLine stoll) deps
      × (ltb now (time + 300) || not (all (is_indexed table) (keep (λ l. not (is_blank l)) deps))
          ≡ true)

  waiting_is_skipped :
      (t : T) (p : Text)
      → IsWaiting t p
      → retry_pending tree sight tools site parent_name extension with_extension root
          build_directory random table stoll files text_of hash_of now false p t
        ≡ (ok tt, t)
  unfolding retry_pending
  waiting_is_skipped t p (time, deps, text, one, early) =
      let parsed =
        parse_pending_file-pending_text stoll print time deps (digits time) (reads time) one in
      rw (text, parsed, early) refl

  waiting_are_skipped :
      (t : T) (ps : List Text)
      → All (IsWaiting t) ps
      → each
          (retry_pending tree sight tools site parent_name extension with_extension root
            build_directory random table stoll files text_of hash_of now false)
          ps
          t
        ≡ (ok tt, t)
  waiting_are_skipped t [] h = refl
  waiting_are_skipped t (p ∷ ps) h = rw (waiting_is_skipped t p h.0) (waiting_are_skipped t ps h.1)

  -- Each pending file is one that a failed build wrote, less than five minutes ago or for dependencies
  -- of which one is still not indexed. Then `buildPending`, not forced, returns and changes nothing.
  -- The C++ library prints a time in digits and reads it back.
  pub waiting_builds_are_not_retried :
      (t : T)
      → All (IsWaiting t) (files t)
      → build_pending tree sight tools site parent_name extension with_extension root
          build_directory random table stoll files text_of hash_of now false t
        ≡ (ok tt, t)
  unfolding build_pending
  waiting_builds_are_not_retried t h = elim (Bool-cases (tree.exists t build_directory)) [
    | inl e ↦ rw e (waiting_are_skipped t (files t) h)
    | inr e ↦ rw e refl
  ]
