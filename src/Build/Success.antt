-- ===== src/Build/Success.antt =====
-- What a build that returns leaves.
use drone_db.Base.{
  ◌≡◌, refl, sym, ap, ◌∙◌, inl, inr, Bool, true, false, ◌&&◌, not, some, Text, bytes, ◌++◌, arith,
  if◌then◌else◌, Bool-cases, Error, Result, ok, err, Step, then_step,
}
use drone_db.Index.Table.{EntryType, Entry, Table, find_row}
use drone_db.Mio.{Tree, assure_folder_exists, assure_is_removed, rename}
use drone_db.Build.{target_of, is_buildable_internal}
use drone_db.Build.Output.{Sight, below, is_build_output_complete, is_build_complete}
use drone_db.Build.Internal.{
  Made, made, missing_dependencies, app_failed, failed_otherwise, Tools, Site, Places, attempt,
  then_made, as_made, raise, finish, publish, caught, make, locked_build, unlocked, guarded, places,
  build_internal, is_moved,
}

module _ {T : Type 0} (tree : Tree T) (sight : Sight T) (tools : Tools T) (site : Site T)
    (p : Places) (type : EntryType) (subfolder : Text) where
  abbrev pub is_complete : T → Bool
  is_complete t = is_build_output_complete sight p.base type subfolder t

  -- `is_ready` says of a tree that the scratch folder has a complete output. The tool sees to that, and
  -- the move brings the scratch folder to the output folder; the scratch folder and the lock are no
  -- part of an output.
  pub record Publishes (is_ready : T → Bool) : Type 0 where
    pub tool_readies :
        (force : Bool) (t : T)
        → (attempt tree sight tools site type p force t).0 ≡ made
        → is_ready (attempt tree sight tools site type p force t).1 ≡ true
    pub removal_keeps_ready :
        (t : T) → is_ready t ≡ true → is_ready (assure_is_removed tree p.output t).1 ≡ true
    pub base_keeps_ready :
        (t : T) → is_ready t ≡ true → is_ready (assure_folder_exists tree p.base t).1 ≡ true
    pub move_completes :
        (t : T)
        → is_ready t ≡ true
        → (rename tree p.scratch p.output t).0 ≡ ok tt
        → is_complete (rename tree p.scratch p.output t).1 ≡ true
    pub removal_keeps_complete :
        (t : T) → is_complete t ≡ true → is_complete (assure_is_removed tree p.scratch t).1 ≡ true
    pub unlock_keeps_complete :
        (t : T) → is_complete t ≡ true → is_complete (site.unlock p.output t) ≡ true

  -- Where a step returns, its state has `P`.
  abbrev pub Returns : (T → Bool) → Result (Unit {0}) × T → Type 0
  Returns P (err e, t) = Unit
  Returns P (ok _, t) = P t ≡ true

  then_step-Returns :
      (P Q : T → Bool) (first : Result (Unit {0}) × T) (next : Step T)
      → Returns P first
      → ((t : T) → P t ≡ true → Returns Q (next t))
      → Returns Q (then_step first next)
  then_step-Returns P Q (err e, t) next h n = tt
  then_step-Returns P Q (ok x, t) next h n = n t h

  of_all : (P : T → Bool) (out : Result (Unit {0}) × T) → P out.1 ≡ true → Returns P out
  of_all P (err e, t) h = tt
  of_all P (ok x, t) h = h

  of_ok :
      (P : T → Bool) (out : Result (Unit {0}) × T)
      → (out.0 ≡ ok tt → P out.1 ≡ true)
      → Returns P out
  of_ok P (err e, t) h = tt
  of_ok P (ok tt, t) h = h refl

  module _ (is_ready : T → Bool) (laws : Publishes is_ready) where
    publish-Returns :
        (t : T) → is_ready t ≡ true → Returns is_complete (publish tree sight tools site p t)
    unfolding publish
    publish-Returns t h =
        then_step-Returns is_ready is_complete
          (if tree.exists t p.output then assure_is_removed tree p.output t else (ok tt, t))
          (λ t1. then_step (assure_folder_exists tree p.base t1) (rename tree p.scratch p.output))
          (elim (Bool-cases (tree.exists t p.output)) [
            | inl e ↦
                rw e (
                  of_all is_ready (assure_is_removed tree p.output t)
                    (laws.removal_keeps_ready t h))
            | inr e ↦ rw e h
          ])
          (λ t1 h1.
            then_step-Returns is_ready is_complete (assure_folder_exists tree p.base t1)
              (rename tree p.scratch p.output)
              (of_all is_ready (assure_folder_exists tree p.base t1) (laws.base_keeps_ready t1 h1))
              (λ t2 h2.
                of_ok is_complete (rename tree p.scratch p.output t2) (laws.move_completes t2 h2)))

    raise-Returns :
        (e : Error) (first : Result (Unit {0}) × T)
        → Returns is_complete (then_step first (raise e))
    raise-Returns e (err x, t) = tt
    raise-Returns e (ok x, t) = tt

    -- Only a state that `made` comes with is returned.
    caught-Returns :
        (m : Made × T)
        → (m.0 ≡ made → is_complete m.1 ≡ true)
        → Returns is_complete (caught tree sight tools site p m)
    unfolding caught
    caught-Returns (made, t) h = h refl
    caught-Returns (missing_dependencies deps, t) h =
        raise-Returns _ (assure_is_removed tree p.scratch _)
    caught-Returns (app_failed e, t) h = raise-Returns e (assure_is_removed tree p.scratch t)
    caught-Returns (failed_otherwise, t) h = raise-Returns _ (assure_is_removed tree p.scratch t)

    as_made_complete :
        (out : Result (Unit {0}) × T)
        → Returns is_complete out
        → (as_made out).0 ≡ made
        → is_complete (as_made out).1 ≡ true
    as_made_complete (err e, t) h m = cc
    as_made_complete (ok x, t) h m = h

    finished_complete :
        (out : Made × T)
        → is_moved type ≡ true
        → (out.0 ≡ made → is_ready out.1 ≡ true)
        → (then_made out (finish tree sight tools site type p)).0 ≡ made
        → is_complete (then_made out (finish tree sight tools site type p)).1 ≡ true
    finished_complete (made, t) moved h m =
        as_made_complete
          (then_step (if is_moved type then publish tree sight tools site p t else (ok tt, t))
            (assure_is_removed tree p.scratch))
          (then_step-Returns is_complete is_complete
            (if is_moved type then publish tree sight tools site p t else (ok tt, t))
            (assure_is_removed tree p.scratch) (rw moved (publish-Returns t (h refl)))
            (λ t1 h1.
              of_all is_complete (assure_is_removed tree p.scratch t1)
                (laws.removal_keeps_complete t1 h1)))
          m
    finished_complete (missing_dependencies deps, t) moved h m = cc
    finished_complete (app_failed e, t) moved h m = cc
    finished_complete (failed_otherwise, t) moved h m = cc

    make-Returns :
        (force : Bool) (t : T)
        → is_moved type ≡ true
        → Returns is_complete (make tree sight tools site type p force t)
    unfolding make
    make-Returns force t moved = caught-Returns _ (
        finished_complete (attempt tree sight tools site type p force t) moved
          (laws.tool_readies force t))

    any_state : (first : Result (Unit {0}) × T) → Returns (λ t. true) first
    any_state (err e, t) = tt
    any_state (ok x, t) = refl

    locked-Returns :
        (force : Bool) (t : T)
        → is_moved type ≡ true
        → Returns is_complete (locked_build tree sight tools site type p subfolder force t)
    unfolding locked_build
    locked-Returns force t moved = elim (Bool-cases (is_complete t && not force)) [
      | inl c ↦ rw c (ground (arith, c))
      | inr c ↦ rw c (
          then_step-Returns (λ x. true) is_complete (site.space p.base t, t)
            (λ t1. then_step (assure_folder_exists tree p.scratch t1) (λ t2.
              then_step (assure_is_removed tree (p.base ++ bytes ".pending") t2)
                (make tree sight tools site type p force)))
            (any_state (site.space p.base t, t))
            (λ t1 h1.
              then_step-Returns (λ x. true) is_complete (assure_folder_exists tree p.scratch t1)
                (λ t2.
                  then_step (assure_is_removed tree (p.base ++ bytes ".pending") t2)
                    (make tree sight tools site type p force))
                (any_state (assure_folder_exists tree p.scratch t1))
                (λ t2 h2.
                  then_step-Returns (λ x. true) is_complete
                    (assure_is_removed tree (p.base ++ bytes ".pending") t2)
                    (make tree sight tools site type p force)
                    (any_state (assure_is_removed tree (p.base ++ bytes ".pending") t2))
                    (λ t3 h3. make-Returns force t3 moved))))
    ]

    unlocked-Returns :
        (out : Result (Unit {0}) × T)
        → Returns is_complete out
        → Returns is_complete (unlocked tree sight tools site p out)
    unlocked-Returns (err e, t) h = tt
    unlocked-Returns (ok x, t) h = laws.unlock_keeps_complete t h

    pub guarded-Returns :
        (force : Bool) (t : T)
        → is_moved type ≡ true
        → Returns is_complete (guarded tree sight tools site type p subfolder force t)
    guarded-Returns force t moved =
        then_step-Returns (λ x. true) is_complete (assure_folder_exists tree p.base t)
          (λ t1. then_step (site.lock p.output t1) (λ t2.
            unlocked tree sight tools site p
              (locked_build tree sight tools site type p subfolder force t2)))
          (any_state (assure_folder_exists tree p.base t))
          (λ t1 h1.
            then_step-Returns (λ x. true) is_complete (site.lock p.output t1)
              (λ t2.
                unlocked tree sight tools site p
                  (locked_build tree sight tools site type p subfolder force t2))
              (any_state (site.lock p.output t1))
              (λ t2 h2.
                unlocked-Returns (locked_build tree sight tools site type p subfolder force t2)
                  (locked-Returns force t2 moved)))

module _ {T : Type 0} (tree : Tree T) (sight : Sight T) (tools : Tools T) (site : Site T)
    (parent_name extension : Text → Text) (with_extension : Text → Text → Text)
    (root build_directory random : Text) where
  abbrev pub own_places : Entry → Text → Places
  own_places e subfolder =
      places tree sight tools site parent_name extension with_extension root build_directory random
        e (record { hash = e.hash; subfolder = subfolder; forced = false })

  returned_state :
      (type : EntryType) (p : Places) (subfolder : Text) (out : Result (Unit {0}) × T)
      → Returns tree sight tools site p type subfolder
          (is_complete tree sight tools site p type subfolder)
          out
      → out.0 ≡ ok tt
      → is_build_output_complete sight p.base type subfolder out.1 ≡ true
  returned_state type p subfolder (err e, t) r h = cc
  returned_state type p subfolder (ok x, t) r h = r

  complete_row :
      (table : Table) (e : Entry) (subfolder : Text) (t : T)
      → find_row e.path table ≡ some e
      → is_buildable_internal parent_name extension with_extension e ≡ some subfolder
      → is_build_complete sight parent_name extension with_extension build_directory table e.path t
        ≡ is_build_output_complete sight (below build_directory e.hash) e.type subfolder t
  unfolding is_build_complete is_build_output_complete
  complete_row table e subfolder t row internal = rw (is_build_complete, row, internal) refl

  own_build :
      (table : Table) (e : Entry) (force : Bool) (subfolder : Text) (t : T)
      → is_buildable_internal parent_name extension with_extension e ≡ some subfolder
      → build_internal tree sight tools site parent_name extension with_extension root
          build_directory random table e force t
        ≡ guarded tree sight tools site e.type (own_places e subfolder) subfolder force t
  unfolding build_internal target_of
  own_build table e force subfolder t internal = rw internal refl

  -- An entry of the index that is built into a scratch folder first: where `buildInternal` returns,
  -- forced or not, whether it made the output or found it, `isBuildComplete` holds of its path, if the
  -- tool makes a complete output where it does not fail and the file system moves it.
  pub returned_build_is_complete :
      (table : Table) (e : Entry) (force : Bool) (subfolder : Text) (is_ready : T → Bool) (t : T)
      → find_row e.path table ≡ some e
      → is_buildable_internal parent_name extension with_extension e ≡ some subfolder
      → is_moved e.type ≡ true
      → Publishes tree sight tools site (own_places e subfolder) e.type subfolder is_ready
      → (build_internal tree sight tools site parent_name extension with_extension root
          build_directory random table e force t).0
        ≡ ok tt
      → is_build_complete sight parent_name extension with_extension build_directory table e.path
          (build_internal tree sight tools site parent_name extension with_extension root
            build_directory random table e force t).1
        ≡ true
  returned_build_is_complete table e force subfolder is_ready t row internal moved laws h =
      rw
        (
          complete_row table e subfolder _ row internal,
          own_build table e force subfolder t internal,
        )
        (returned_state e.type (own_places e subfolder) subfolder
          (guarded tree sight tools site e.type (own_places e subfolder) subfolder force t)
          (guarded-Returns tree sight tools site (own_places e subfolder) e.type subfolder is_ready
            laws force t moved)
          (sym (ap (λ x. x.0) (own_build table e force subfolder t internal)) ∙ h))
