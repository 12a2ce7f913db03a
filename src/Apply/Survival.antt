-- ===== src/Apply/Survival.antt =====
-- What becomes of an entry that has changed locally.
use drone_db.Base.{
  Step, then_step, ◌≡◌, refl, inl, inr, Bool, true, false, ◌&&◌, ◌||◌, not, List, [], ◌∷◌, Text,
  same, any, all, arith, is_some, if◌then◌else◌, Bool-cases, Result, ok, err, subst,
}
use drone_db.Index.Table.{Entry}
use drone_db.Delta.{AddAction, RemoveAction, Delta, is_empty, is_directory}
use drone_db.Meta.Dump.{DumpedMeta}
use drone_db.Apply.{
  MergeStrategy, Conflict, remote_delete_local_modified, both_modified, Local, modified_path_list,
  listed_metas, State, with_conflicts, each, delete_local, apply_remove, write_local, apply_add,
  sync_times, end_files, file_operations, restore_listed, meta_operations, no_conflicts,
  after_files, apply_delta,
}
use drone_db.Apply.Steps.{
  Laws, overwrites, reports_conflicts, any_empty, IsHere, is_reported, Survives, then_step-IsHere,
  then_step-Survives, with_conflicts-Survives, decided-Survives, each-Survives,
}

module _ {W : Type 0} (here : Local W) (covers : Text → Text → Bool) (laws : Laws here covers)
    (m : MergeStrategy) (q : Text) (row : Entry) where
  pub delete_local-IsHere :
      (p : Text) (indexed : Bool) (w : W)
      → covers p q ≡ false
      → IsHere here covers laws m q row w
      → IsHere here covers laws m q row (delete_local here m indexed p w).1
  delete_local-IsHere p indexed w f h =
      let removed = laws.assure_leaves p q row in
      elim (Bool-cases (here.exists w p)) [
        | inr none_there ↦ rw none_there h
        | inl there ↦ rw there (elim (Bool-cases indexed) [
          | inl i ↦ rw i (
              then_step-IsHere here covers laws m q row (here.remove_from_index p w)
                (here.assure_is_removed p) (laws.remove_leaves p q row f w h) removed)
          | inr i ↦ rw i (removed w h)
        ])
      ]

  write_local-IsHere :
      (a : AddAction) (w : W)
      → same a.path q ≡ false
      → IsHere here covers laws m q row w
      → IsHere here covers laws m q row (write_local here m a w).1
  write_local-IsHere a w f h =
      then_step-IsHere here covers laws m q row
        (if is_directory a.hash then here.create_directories a.path w else here.copy a.path w)
        (here.add_to_index a.path)
        (elim (Bool-cases (is_directory a.hash)) [
          | inl t ↦ rw t (laws.directories_leave a.path q row w h)
          | inr t ↦ rw t (laws.copy_leaves a.path q row w h)
        ])
        (laws.add_leaves a.path q row f)

  -- A remote removal of the path itself does not know its hash, and that of another does not take it
  -- along.
  abbrev pub spares : RemoveAction → Bool
  spares r = if same r.path q then not (same r.hash row.hash) else not (covers r.path q)

  -- A remote addition of the path has another hash.
  abbrev pub alters : AddAction → Bool
  alters a = not (same a.path q && same a.hash row.hash)

  apply_remove-Survives :
      (r : RemoveAction) (cs : List Conflict) (w : W)
      → overwrites m ≡ false
      → spares r ≡ true
      → IsHere here covers laws m q row w
      → Survives here covers laws m q row
          (is_reported here covers laws m q row cs || (reports_conflicts m && same r.path q))
          (apply_remove here m r (cs, w))
  unfolding apply_remove
  apply_remove-Survives r cs w o s h =
      let indexed = is_some (here.get_entry w r.path) in
      decided-Survives here covers laws m q row
        (record { path = r.path; type = remote_delete_local_modified })
        (delete_local here m indexed r.path) r.hash cs w o h (λ t. ground arith)
        (λ f. delete_local-IsHere r.path indexed w (ground arith) h)

  apply_add-Survives :
      (a : AddAction) (cs : List Conflict) (w : W)
      → overwrites m ≡ false
      → alters a ≡ true
      → IsHere here covers laws m q row w
      → Survives here covers laws m q row
          (is_reported here covers laws m q row cs || (reports_conflicts m && same a.path q))
          (apply_add here m a (cs, w))
  unfolding apply_add
  apply_add-Survives a cs w o s h =
      decided-Survives here covers laws m q row (record { path = a.path; type = both_modified })
        (write_local here m a) a.hash cs w o h (λ t. ground arith) (λ f. write_local-IsHere a w f h)

  end_files-Survives :
      (paths : List Text) (cs : List Conflict) (w : W)
      → IsHere here covers laws m q row w
      → Survives here covers laws m q row
          (is_reported here covers laws m q row cs)
          (end_files here m paths (cs, w))
  end_files-Survives paths cs w h =
      then_step-Survives here covers laws m q row (is_reported here covers laws m q row cs)
        (is_reported here covers laws m q row cs) (with_conflicts cs (here.drop_temp_folder w))
        (sync_times here m paths)
        (with_conflicts-Survives here covers laws m q row cs (here.drop_temp_folder w)
          (laws.drop_temp_leaves q row w h))
        (λ cs' w' h' e.
          subst (λ b. Survives here covers laws m q row b (sync_times here m paths (cs', w'))) e
            (elim (Bool-cases (is_empty cs' && not (is_empty paths))) [
              | inl t ↦ rw t (
                  with_conflicts-Survives here covers laws m q row cs'
                    (here.sync_local_mtimes paths w') (laws.times_leave paths q row w' h'))
              | inr f ↦ rw f (h', refl)
            ]))

  abbrev pub is_removed_path : Delta → Bool
  is_removed_path d = any (λ (r : RemoveAction). same r.path q) d.removes

  abbrev pub is_added_path : Delta → Bool
  is_added_path d = any (λ (a : AddAction). same a.path q) d.adds

  -- Whether the delta has an action on the path that is reported.
  abbrev pub reported_by : Delta → Bool
  reported_by d =
      (reports_conflicts m && is_removed_path d) || (reports_conflicts m && is_added_path d)

  abbrev changes : Delta → Step (State W)
  changes d s = then_step (each (apply_remove here m) d.removes s) (λ s'.
      then_step (each (apply_add here m) d.adds s') (end_files here m (modified_path_list d)))

  changes-Survives :
      (d : Delta) (cs : List Conflict) (w : W)
      → overwrites m ≡ false
      → all spares d.removes ≡ true
      → all alters d.adds ≡ true
      → IsHere here covers laws m q row w
      → is_reported here covers laws m q row cs ≡ false
      → Survives here covers laws m q row (reported_by d) (changes d (cs, w))
  changes-Survives d cs w o s a h e =
      then_step-Survives here covers laws m q row
        (is_reported here covers laws m q row cs || (reports_conflicts m && is_removed_path d))
        (reported_by d) (each (apply_remove here m) d.removes (cs, w))
        (λ s'.
          then_step (each (apply_add here m) d.adds s') (end_files here m (modified_path_list d)))
        (each-Survives here covers laws m q row (λ (r : RemoveAction). r.path) spares
          (apply_remove here m) (reports_conflicts m)
          (λ r cs' w' ok' h'. apply_remove-Survives r cs' w' o ok' h') d.removes cs w s h)
        (λ cs1 w1 h1 e1.
          then_step-Survives here covers laws m q row
            (is_reported here covers laws m q row cs1 || (reports_conflicts m && is_added_path d))
            (reported_by d) (each (apply_add here m) d.adds (cs1, w1))
            (end_files here m (modified_path_list d))
            (each-Survives here covers laws m q row (λ (x : AddAction). x.path) alters
              (apply_add here m) (reports_conflicts m)
              (λ x cs' w' ok' h'. apply_add-Survives x cs' w' o ok' h') d.adds cs1 w1 a h1)
            (λ cs2 w2 h2 e2.
              subst
                (λ b.
                  Survives here covers laws m q row b
                    (end_files here m (modified_path_list d) (cs2, w2)))
                (rw (e2, e1, e) refl) (end_files-Survives (modified_path_list d) cs2 w2 h2)))

  file_operations-Survives :
      (d : Delta) (w : W)
      → overwrites m ≡ false
      → all spares d.removes ≡ true
      → all alters d.adds ≡ true
      → IsHere here covers laws m q row w
      → Survives here covers laws m q row (reported_by d) (file_operations here m d w)
  unfolding file_operations any
  file_operations-Survives d w o s a h = elim (Bool-cases (is_empty d.adds && is_empty d.removes)) [
    | inl t ↦ rw t (
      h,
      ground (
        arith,
        any_empty (λ (x : AddAction). same x.path q) d.adds,
        any_empty (λ (x : RemoveAction). same x.path q) d.removes,
      ),
    )
    | inr f ↦ rw f (
        then_step-Survives here covers laws m q row false (reported_by d)
          (with_conflicts [] (here.make_temp_folder w)) (changes d)
          (with_conflicts-Survives here covers laws m q row [] (here.make_temp_folder w)
            (laws.make_temp_leaves q row w h))
          (λ cs1 w1 h1 e1. changes-Survives d cs1 w1 o s a h1 e1))
  ]

  pub meta_operations-IsHere :
      (d : Delta) (dump : List DumpedMeta) (w : W)
      → IsHere here covers laws m q row w
      → IsHere here covers laws m q row (meta_operations here m d dump w).1
  unfolding meta_operations
  meta_operations-IsHere d dump w h =
      then_step-IsHere here covers laws m q row
        (if is_empty d.meta_adds
          then (ok tt, w)
          else restore_listed here m (listed_metas d.meta_adds dump) w)
        (λ w'. if is_empty d.meta_removes then (ok tt, w') else here.bulk_remove d.meta_removes w')
        (elim (Bool-cases (is_empty d.meta_adds)) [
          | inl t ↦ rw t h
          | inr f ↦ rw f (restored (listed_metas d.meta_adds dump))
        ])
        (λ w' h'. elim (Bool-cases (is_empty d.meta_removes)) [
          | inl t ↦ rw t h'
          | inr f ↦ rw f (laws.bulk_leaves d.meta_removes q row w' h')
        ])
    where
      restored :
          (r : Result (List DumpedMeta))
          → IsHere here covers laws m q row (restore_listed here m r w).1
      restored (err e) = h
      restored (ok metas) = laws.restore_leaves metas q row w h

  -- Where nothing was thrown, `b` says whether `q` is among the conflicts that are returned.
  abbrev pub Returns : Bool → Result (List Conflict) → Type 0
  Returns b (err e) = Unit
  Returns b (ok cs) = is_reported here covers laws m q row cs ≡ b

  no_conflicts-Returns :
      (out : Result (Unit {0}) × W)
      → IsHere here covers laws m q row out.1
      → IsHere here covers laws m q row (no_conflicts out).1
        × Returns (is_reported here covers laws m q row []) (no_conflicts out).0
  no_conflicts-Returns (err e, w) h = (h, tt)
  no_conflicts-Returns (ok x, w) h = (h, refl)

  after_files-Returns :
      (b : Bool) (d : Delta) (dump : List DumpedMeta) (out : Result (Unit {0}) × State W)
      → Survives here covers laws m q row b out
      → IsHere here covers laws m q row (after_files here m d dump out).1
        × Returns b (after_files here m d dump out).0
  after_files-Returns b d dump (err e, (cs, w)) h = (h.0, tt)
  after_files-Returns b d dump (ok x, (c ∷ cs, w)) h = h
  after_files-Returns b d dump (ok x, ([], w)) (h, e) =
      let out = meta_operations here m d dump w in
      subst
        (λ c. IsHere here covers laws m q row (no_conflicts out).1 × Returns c (no_conflicts out).0)
        e (no_conflicts-Returns out (meta_operations-IsHere d dump w h))

  -- Where the local operations leave other entries alone as `Laws` has it: an entry that the index has
  -- and that has changed locally, so that no removal and no addition of its path has its hash, is left
  -- as it is by a delta whose strategy is not KeepTheirs, if no removal of another path takes it along,
  -- also where the delta throws. Where it does not throw, the path is among the conflicts that are
  -- returned just if the strategy is DontMerge and the delta has an action on the path.
  pub local_changes_survive :
      (d : Delta) (dump : List DumpedMeta) (w : W)
      → overwrites m ≡ false
      → all spares d.removes ≡ true
      → all alters d.adds ≡ true
      → IsHere here covers laws m q row w
      → IsHere here covers laws m q row (apply_delta here m d dump w).1
        × Returns (reported_by d) (apply_delta here m d dump w).0
  unfolding apply_delta
  local_changes_survive d dump w o s a h =
      after_files-Returns (reported_by d) d dump (file_operations here m d w)
        (file_operations-Survives d w o s a h)
