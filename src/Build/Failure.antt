-- ===== src/Build/Failure.antt =====
-- What a build that fails leaves.
use drone_db.Base.{
  ◌≡◌, refl, ◌∙◌, inl, inr, Bool, true, false, ◌&&◌, not, none, some, List, Text, bytes, ◌++◌,
  Bool-cases, Error, Result, ok, err, Step, then_step,
}
use drone_db.Index.Table.{EntryType, generic, Entry, Table}
use drone_db.Mio.{Tree, assure_folder_exists, assure_is_removed}
use drone_db.Build.{Target, is_buildable_internal, is_buildable_dependency, target_of}
use drone_db.Build.Output.{Sight, is_build_output_complete}
use drone_db.Build.Internal.{
  Made, made, missing_dependencies, app_failed, failed_otherwise, Tools, Site, Places, attempt,
  then_made, as_made, raise, finish, caught, make, locked_build, unlocked, guarded, places,
  build_internal,
}

-- A step, whether it throws or not, leaves what is seen of the tree.
abbrev pub Unseen : {T S : Type 0} → (T → S) → Step T → Type 0
Unseen {T} seen f = (t : T) → seen (f t).1 ≡ seen t

-- What is seen is not below the folders that a build writes to before it publishes, `seen` being
-- what one looks at, such as the output folder.
pub record Apart {T S : Type 0} (tree : Tree T) (site : Site T) (p : Places) (seen : T → S)
    : Type 0 where
  pub base_unseen : Unseen seen (assure_folder_exists tree p.base)
  pub scratch_unseen : Unseen seen (assure_folder_exists tree p.scratch)
  pub removal_unseen : Unseen seen (assure_is_removed tree p.scratch)
  pub pending_unseen : Unseen seen (assure_is_removed tree (p.base ++ bytes ".pending"))
  pub write_unseen :
      (deps : List Text) (t : T)
      → seen (site.write_pending (p.base ++ bytes ".pending") deps t) ≡ seen t
  pub lock_unseen : Unseen seen (site.lock p.output)
  pub unlock_unseen : (t : T) → seen (site.unlock p.output t) ≡ seen t

abbrev pub is_made : Made → Bool
is_made made = true
is_made _ = false

module _ {T S : Type 0} (seen : T → S) where
  pub then_step-unseen :
      (s : S) (first : Result (Unit {0}) × T) (next : Step T)
      → seen first.1 ≡ s
      → ((t : T) → seen t ≡ s → seen (next t).1 ≡ s)
      → seen (then_step first next).1 ≡ s
  then_step-unseen s (err e, t) next h n = h
  then_step-unseen s (ok x, t) next h n = n t h

  module _ (tree : Tree T) (sight : Sight T) (tools : Tools T) (site : Site T) (p : Places)
      (apart : Apart tree site p seen) where
    raised-unseen :
        (e : Error) (s : S) (t : T)
        → seen t ≡ s
        → seen (then_step (assure_is_removed tree p.scratch t) (raise e)).1 ≡ s
    raised-unseen e s t h =
        then_step-unseen s (assure_is_removed tree p.scratch t) (raise e)
          (apart.removal_unseen t ∙ h) (λ t' h'. h')

    caught-unseen :
        (s : S) (m : Made) (t : T) → seen t ≡ s → seen (caught tree sight tools site p (m, t)).1 ≡ s
    unfolding caught
    caught-unseen s made t h = h
    caught-unseen s (missing_dependencies deps) t h =
        raised-unseen _ s _ (apart.write_unseen deps t ∙ h)
    caught-unseen s (app_failed e) t h = raised-unseen e s t h
    caught-unseen s failed_otherwise t h = raised-unseen _ s t h

    -- Neither the tool nor what follows it shows.
    make-unseen :
        (type : EntryType) (force : Bool) (s : S) (t : T)
        → ((t : T)
            → seen t ≡ s
            → seen
                (then_made
                  (attempt tree sight tools site type p force t)
                  (finish tree sight tools site type p)).1
              ≡ s)
        → seen t ≡ s
        → seen (make tree sight tools site type p force t).1 ≡ s
    unfolding make
    make-unseen type force s t m h = caught-unseen s _ _ (m t h)

    locked-unseen :
        (type : EntryType) (subfolder : Text) (force : Bool) (s : S) (t : T)
        → ((t : T)
            → seen t ≡ s
            → seen
                (then_made
                  (attempt tree sight tools site type p force t)
                  (finish tree sight tools site type p)).1
              ≡ s)
        → seen t ≡ s
        → seen (locked_build tree sight tools site type p subfolder force t).1 ≡ s
    unfolding locked_build
    locked-unseen type subfolder force s t m h =
        elim (Bool-cases (is_build_output_complete sight p.base type subfolder t && not force)) [
          | inl c ↦ rw c h
          | inr c ↦ rw c (
              then_step-unseen s (site.space p.base t, t)
                (λ t1. then_step (assure_folder_exists tree p.scratch t1) (λ t2.
                  then_step (assure_is_removed tree (p.base ++ bytes ".pending") t2)
                    (make tree sight tools site type p force)))
                h
                (λ t1 h1.
                  then_step-unseen s (assure_folder_exists tree p.scratch t1)
                    (λ t2.
                      then_step (assure_is_removed tree (p.base ++ bytes ".pending") t2)
                        (make tree sight tools site type p force))
                    (apart.scratch_unseen t1 ∙ h1)
                    (λ t2 h2.
                      then_step-unseen s (assure_is_removed tree (p.base ++ bytes ".pending") t2)
                        (make tree sight tools site type p force) (apart.pending_unseen t2 ∙ h2)
                        (λ t3 h3. make-unseen type force s t3 m h3))))
        ]

    guarded-unseen :
        (type : EntryType) (subfolder : Text) (force : Bool) (s : S) (t : T)
        → ((t : T)
            → seen t ≡ s
            → seen
                (then_made
                  (attempt tree sight tools site type p force t)
                  (finish tree sight tools site type p)).1
              ≡ s)
        → seen t ≡ s
        → seen (guarded tree sight tools site type p subfolder force t).1 ≡ s
    guarded-unseen type subfolder force s t m h =
        then_step-unseen s (assure_folder_exists tree p.base t)
          (λ t1. then_step (site.lock p.output t1) (λ t2.
            unlocked tree sight tools site p
              (locked_build tree sight tools site type p subfolder force t2)))
          (apart.base_unseen t ∙ h)
          (λ t1 h1.
            then_step-unseen s (site.lock p.output t1)
              (λ t2.
                unlocked tree sight tools site p
                  (locked_build tree sight tools site type p subfolder force t2))
              (apart.lock_unseen t1 ∙ h1)
              (λ t2 h2.
                apart.unlock_unseen (locked_build tree sight tools site type p subfolder force t2).1
                ∙ locked-unseen type subfolder force s t2 m h2))

    unmade-quiet :
        (s : S) (out : Made × T) (next : T → Made × T)
        → is_made out.0 ≡ false
        → seen out.1 ≡ s
        → seen (then_made out next).1 ≡ s
    unmade-quiet s (made, t) next f h = cc
    unmade-quiet s (missing_dependencies deps, t) next f h = h
    unmade-quiet s (app_failed e, t) next f h = h
    unmade-quiet s (failed_otherwise, t) next f h = h

    generic-quiet :
        (force : Bool) (s : S) (t : T)
        → seen t ≡ s
        → seen
            (then_made
              (attempt tree sight tools site generic p force t)
              (finish tree sight tools site generic p)).1
          ≡ s
    unfolding attempt
    generic-quiet force s t h =
        as_made-unseen (assure_is_removed tree p.scratch t) (apart.removal_unseen t ∙ h)
      where
        as_made-unseen : (out : Result (Unit {0}) × T) → seen out.1 ≡ s → seen (as_made out).1 ≡ s
        as_made-unseen (err e, t') k = k
        as_made-unseen (ok x, t') k = k

  module _ (tree : Tree T) (sight : Sight T) (tools : Tools T) (site : Site T)
      (parent_name extension : Text → Text) (with_extension : Text → Text → Text)
      (root build_directory random : Text) where
    abbrev pub places_of : Entry → Target → Places
    places_of e target =
        places tree sight tools site parent_name extension with_extension root build_directory
          random e target

    -- A build whose tool does not succeed, and does not itself touch what is seen of the tree, leaves
    -- that as it was, for example the output of an earlier build, where the folders that the build
    -- writes to are apart from it.
    pub failed_build_keeps_output :
        (table : Table) (e : Entry) (force : Bool) (target : Target) (t : T)
        → target_of parent_name extension with_extension table e force ≡ some target
        → Apart tree site (places_of e target) seen
        → ((t' : T)
            → let out =
                attempt tree sight tools site e.type (places_of e target) target.forced t' in
              (is_made out.0 ≡ false) × (seen out.1 ≡ seen t'))
        → seen
            (build_internal tree sight tools site parent_name extension with_extension root
              build_directory random table e force t).1
          ≡ seen t
    unfolding build_internal
    failed_build_keeps_output table e force target t found apart fails =
        let p = places_of e target in
        rw found (
          guarded-unseen tree sight tools site p apart e.type target.subfolder target.forced
            (seen t) t
            (λ t' h.
              unmade-quiet tree sight tools site p apart (seen t)
                (attempt tree sight tools site e.type p target.forced t')
                (finish tree sight tools site e.type p) (fails t').0 ((fails t').1 ∙ h))
            refl)

    dependency_type :
        (table : Table) (e : Entry) (force : Bool) (target : Target)
        → is_buildable_internal parent_name extension with_extension e ≡ none
        → target_of parent_name extension with_extension table e force ≡ some target
        → e.type ≡ generic
    unfolding target_of is_buildable_internal is_buildable_dependency
    dependency_type table e force target n h = typed e.type n h
      where
        typed :
            (type : EntryType)
            → is_buildable_internal parent_name extension with_extension (record e { type = type })
              ≡ none
            → target_of parent_name extension with_extension table (record e { type = type }) force
              ≡ some target
            → type ≡ generic
        typed generic n h = refl
        typed _ n h = cc

    -- The build of an entry that is built only as the dependency of a main file leaves what is seen of
    -- the tree, for example the output of the main file, where the folders that a build writes to are
    -- apart from it: no tool runs for it.
    pub dependency_builds_nothing :
        (table : Table) (e : Entry) (force : Bool) (target : Target) (t : T)
        → is_buildable_internal parent_name extension with_extension e ≡ none
        → target_of parent_name extension with_extension table e force ≡ some target
        → Apart tree site (places_of e target) seen
        → seen
            (build_internal tree sight tools site parent_name extension with_extension root
              build_directory random table e force t).1
          ≡ seen t
    unfolding build_internal
    dependency_builds_nothing table e force target t n found apart =
        let p = places_of e target in
        rw found (
          guarded-unseen tree sight tools site p apart e.type target.subfolder target.forced
            (seen t) t
            (rw (dependency_type table e force target n found)
              (λ t' h. generic-quiet tree sight tools site p apart target.forced (seen t) t' h))
            refl)
