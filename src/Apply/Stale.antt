-- ===== src/Apply/Stale.antt =====
-- What `applyDelta` does to an entry that the index has and that the remote index has changed.
use drone_db.Base.{
  Step, then_step, ◌≡◌, refl, inl, inr, Bool, true, ◌&&◌, not, some, List, [], ◌∷◌, Text, all,
  arith, is_some, if◌then◌else◌, Bool-cases, Result, ok, err,
}
use drone_db.Index.Table.{Entry}
use drone_db.Delta.{AddAction, RemoveAction, Delta, is_empty, is_directory}
use drone_db.Meta.Dump.{DumpedMeta}
use drone_db.Apply.{
  MergeStrategy, Conflict, remote_delete_local_modified, both_modified, Local, Decision, proceeds,
  reports, skips, decide, modified_path_list, State, with_conflicts, decided, each, delete_local,
  apply_remove, write_local, apply_add, sync_times, end_files, file_operations, no_conflicts,
  after_files, apply_delta,
}
use drone_db.Apply.Steps.{Leaves, Laws, then_step-IsHere}
use drone_db.Apply.Survival.{delete_local-IsHere, meta_operations-IsHere}

all-true : {A : Type 0} (xs : List A) → all (λ x. true) xs ≡ true
unfolding all
all-true [] = refl
all-true (x ∷ xs) = all-true xs

module _ {W : Type 0} (here : Local W) (covers : Text → Text → Bool) (laws : Laws here covers)
    (add_leaves_all : (p q : Text) (row : Entry) → Leaves here q row (here.add_to_index p))
    (m : MergeStrategy) (q : Text) (row : Entry) where
  abbrev pub IsHere : W → Type 0
  IsHere w = here.get_entry w q ≡ some row

  abbrev StateIsHere : State W → Type 0
  StateIsHere (cs, w) = IsHere w

  then_step-StateIsHere :
      (first : Result (Unit {0}) × State W) (next : Step (State W))
      → StateIsHere first.1
      → ((s : State W) → StateIsHere s → StateIsHere (next s).1)
      → StateIsHere (then_step first next).1
  then_step-StateIsHere (err e, s) next h n = h
  then_step-StateIsHere (ok x, s) next h n = n s h

  decided-StateIsHere :
      (c : Conflict) (act : Step W) (s : State W) (decision : Decision)
      → IsHere (act s.1).1
      → StateIsHere s
      → StateIsHere (decided c act s decision).1
  decided-StateIsHere c act s proceeds a h = a
  decided-StateIsHere c act s reports a h = h
  decided-StateIsHere c act s skips a h = h

  each-StateIsHere :
      {A : Type 0} (may : A → Bool) (f : A → Step (State W))
      → ((a : A) (s : State W) → may a ≡ true → StateIsHere s → StateIsHere (f a s).1)
      → (xs : List A) (s : State W) → all may xs ≡ true
      → StateIsHere s
      → StateIsHere (each f xs s).1
  unfolding each all
  each-StateIsHere may f one [] s a h = h
  each-StateIsHere may f one (x ∷ xs) s a h =
      then_step-StateIsHere (f x s) (each f xs) (one x s (ground arith) h)
        (λ s1 h1. each-StateIsHere may f one xs s1 (ground arith) h1)

  -- The removal is of another path, and does not take the entry along.
  abbrev pub is_elsewhere : RemoveAction → Bool
  is_elsewhere r = not (covers r.path q)

  apply_remove-StateIsHere :
      (r : RemoveAction) (s : State W)
      → is_elsewhere r ≡ true
      → StateIsHere s
      → StateIsHere (apply_remove here m r s).1
  unfolding apply_remove
  apply_remove-StateIsHere r (cs, w) e h =
      let indexed = is_some (here.get_entry w r.path) in
      decided-StateIsHere (record { path = r.path; type = remote_delete_local_modified })
        (delete_local here m indexed r.path) (cs, w) (decide m r.hash (here.get_entry w r.path))
        (delete_local-IsHere here covers laws m q row r.path indexed w (ground arith) h) h

  apply_add-StateIsHere :
      (a : AddAction) (s : State W) → StateIsHere s → StateIsHere (apply_add here m a s).1
  unfolding apply_add
  apply_add-StateIsHere a (cs, w) h =
      decided-StateIsHere (record { path = a.path; type = both_modified }) (write_local here m a)
        (cs, w) (decide m a.hash (here.get_entry w a.path))
        (then_step-IsHere here covers laws m q row
          (if is_directory a.hash then here.create_directories a.path w else here.copy a.path w)
          (here.add_to_index a.path)
          (elim (Bool-cases (is_directory a.hash)) [
            | inl t ↦ rw t (laws.directories_leave a.path q row w h)
            | inr t ↦ rw t (laws.copy_leaves a.path q row w h)
          ])
          (add_leaves_all a.path q row))
        h

  end_files-StateIsHere :
      (paths : List Text) (s : State W) → StateIsHere s → StateIsHere (end_files here m paths s).1
  end_files-StateIsHere paths (cs, w) h =
      then_step-StateIsHere (with_conflicts cs (here.drop_temp_folder w)) (sync_times here m paths)
        (laws.drop_temp_leaves q row w h)
        (λ s1 h1. elim (Bool-cases (is_empty s1.0 && not (is_empty paths))) [
          | inl t ↦ rw t (laws.times_leave paths q row s1.1 h1)
          | inr f ↦ rw f h1
        ])

  file_operations-StateIsHere :
      (d : Delta) (w : W)
      → all is_elsewhere d.removes ≡ true
      → IsHere w
      → StateIsHere (file_operations here m d w).1
  unfolding file_operations
  file_operations-StateIsHere d w e h = elim (Bool-cases (is_empty d.adds && is_empty d.removes)) [
    | inl t ↦ rw t h
    | inr f ↦ rw f (
        then_step-StateIsHere (with_conflicts [] (here.make_temp_folder w))
          (λ s. then_step (each (apply_remove here m) d.removes s) (λ s1.
            then_step (each (apply_add here m) d.adds s1)
              (end_files here m (modified_path_list d))))
          (laws.make_temp_leaves q row w h)
          (λ s h1.
            then_step-StateIsHere (each (apply_remove here m) d.removes s)
              (λ s1.
                then_step (each (apply_add here m) d.adds s1)
                  (end_files here m (modified_path_list d)))
              (each-StateIsHere is_elsewhere (apply_remove here m) apply_remove-StateIsHere
                d.removes s e h1)
              (λ s1 h2.
                then_step-StateIsHere (each (apply_add here m) d.adds s1)
                  (end_files here m (modified_path_list d))
                  (each-StateIsHere (λ a. true) (apply_add here m)
                    (λ a s2 t. apply_add-StateIsHere a s2) d.adds s1 (all-true d.adds) h2)
                  (end_files-StateIsHere (modified_path_list d)))))
  ]

  no_conflicts-IsHere : (out : Result (Unit {0}) × W) → IsHere out.1 → IsHere (no_conflicts out).1
  no_conflicts-IsHere (err e, w) h = h
  no_conflicts-IsHere (ok x, w) h = h

  after_files-IsHere :
      (d : Delta) (dump : List DumpedMeta) (out : Result (Unit {0}) × State W)
      → StateIsHere out.1
      → IsHere (after_files here m d dump out).1
  after_files-IsHere d dump (err e, (cs, w)) h = h
  after_files-IsHere d dump (ok x, (c ∷ cs, w)) h = h
  after_files-IsHere d dump (ok x, ([], w)) h =
      no_conflicts-IsHere _ (meta_operations-IsHere here covers laws m q row d dump w h)

  -- The entry stays, where additions leave it.
  pub entries_are_not_replaced :
      (d : Delta) (dump : List DumpedMeta) (w : W)
      → all is_elsewhere d.removes ≡ true
      → IsHere w
      → IsHere (apply_delta here m d dump w).1
  unfolding apply_delta
  entries_are_not_replaced d dump w e h =
      after_files-IsHere d dump (file_operations here m d w) (file_operations-StateIsHere d w e h)
