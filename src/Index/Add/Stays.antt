-- ===== src/Index/Add/Stays.antt =====
-- What `addToIndex` does to a row that the index has.
use drone_db.Base.{
  ◌≡◌, refl, sym, ap, ◌∙◌, inl, inr, Bool, true, false, Option, none, some, List, [], ◌∷◌, arith,
  Text, same, same_iff, All, Bool-cases, Error, Result, ok, err, ok-injective, ◌>>=◌, >>=-returns,
  if◌then◌else◌, subst,
}
use drone_db.Transaction.{Connection, Fault}
use drone_db.Index.Table.{Entry, Table, empty_entry, find_row, has_row}
use drone_db.Index.Check.{Files, check_update}
use drone_db.Index.Add.Plan.{
  PlannedAddItem, planned_item, plan_add_candidates, is_skipped, ComputedAddItem, Computed,
  to_write, unchanged_item, failed_item, ComputePhase, is_not_modified, item_code, captured,
  put_first, compute_known, compute_item, compute_add_entries,
}
use drone_db.Index.Add.Commit.{
  Batch, verdict, has_changed, commit_loop, commit_add_entries, with_conflict, map_ok,
}
use drone_db.Index.Add.CommitLaws.{
  conflict_step, unchanged_step, row_step, stop_step, loop_step, loop_nil, write_row_lem,
  map_ok-eq-ok,
}
use drone_db.Index.Add.Outcome.{loop_throws, commit_all_or_nothing}
use drone_db.Index.Add.ComputeLaws.{compute_item-path, computed_path}
use drone_db.Index.Add.Passes.{Pass, only_connection, add_to_index}

-- Where the item is of the path `q`, it is an update.
abbrev pub Updates : Text → ComputedAddItem → Type 0
Updates q ci = same ci.entry.path q ≡ true → ci.is_update ≡ true

abbrev pub IsKnown : (Text → Text) → Text → PlannedAddItem → Type 0
IsKnown relative_to q item =
    (item.rel_path ≡ relative_to item.abs_path)
    × (same item.rel_path q ≡ true → item.exists_in_db ≡ true)

module _ (absolute : Text → Text) (files : Files) (callback : Option (Entry → Bool → Bool)) where
  other_row :
      (q : Text) (row e : Entry) (inserted : Bool) (t t1 : Table)
      → find_row q t ≡ some row
      → same e.path q ≡ false
      → find_row q t1 ≡ (if same e.path q then some e else find_row q t)
      → find_row q t1 ≡ some row
  other_row q row e inserted t t1 f n w = ground arith

  loop_conflict :
      (ci : ComputedAddItem) (cis : List ComputedAddItem) (t : Table)
      → has_changed files (absolute ci.entry.path) ci ≡ true
      → commit_loop absolute files callback (ci ∷ cis) t
        ≡ map_ok
            (with_conflict (absolute ci.entry.path))
            (commit_loop absolute files callback cis t)
  unfolding commit_loop verdict
  loop_conflict ci cis t c = rw c refl

  commit_loop-stays :
      (q : Text) (row : Entry) (cis : List ComputedAddItem) (t t' : Table) (b : Batch)
      → All (Updates q) cis
      → find_row q t ≡ some row
      → commit_loop absolute files callback cis t ≡ ok (b, t')
      → find_row q t' ≡ some row
  unfolding commit_loop verdict
  commit_loop-stays q row [] t t' b u f h = rw (← (loop_nil absolute files callback t t' b h).1) f
  commit_loop-stays q row (ci ∷ cis) t t' b u f h = elim (Bool-cases (same ci.entry.path q)) [
    | inl t1 ↦ elim (Bool-cases (has_changed files (absolute ci.entry.path) ci)) [
      | inl c ↦
          let ((b0, t0), r, e) =
            map_ok-eq-ok (with_conflict (absolute ci.entry.path))
              (commit_loop absolute files callback cis t) (sym (loop_conflict ci cis t c) ∙ h) in
          commit_loop-stays q row cis t t' b0 u.1 f (r ∙ ap (λ x. ok (b0, x)) (ap (λ x. x.1) e))
      | inr c ↦
          let there : has_row ci.entry.path t ≡ true =
            rw ((same_iff ci.entry.path q).0 t1, f) refl in
          let thrown = loop_throws absolute files callback ci cis t (u.0 t1) c there in cc
    ]
    | inr n ↦ elim (loop_step absolute files callback ci cis t t' b h) [
      | conflict_step b0 r e ↦ commit_loop-stays q row cis t t' b0 u.1 f r
      | unchanged_step b0 r e ↦ commit_loop-stays q row cis t t' b0 u.1 f r
      | row_step b0 inserted t1 i w r e ↦
          commit_loop-stays q row cis t1 t' b0 u.1
            (other_row q row ci.entry inserted t t1 f n
              (write_row_lem inserted ci.entry t t1 q i w))
            r
      | stop_step inserted i w g e ↦
          other_row q row ci.entry inserted t t' f n (write_row_lem inserted ci.entry t t' q i w)
    ]
  ]

  -- the rows after the commit phase, however it ends
  commit-stays :
      (q : Text) (row : Entry) (f g : Fault) (cis : List ComputedAddItem) (t : Table)
      → All (Updates q) cis
      → find_row q t ≡ some row
      → find_row q
          (commit_add_entries absolute files callback f g cis
            (record { committed = t; working = none })).1.committed
        ≡ some row
  commit-stays q row f g cis t u h =
      elim (commit_all_or_nothing absolute files callback f g cis t).1 [
        | inl (_, _, s) ↦ rw s h
        | inr (inl (_, _, _, s, _)) ↦ rw s h
        | inr (inr (b, _, _, ran)) ↦ commit_loop-stays q row cis t _ b u h ran
      ]

planned_item-IsKnown :
    (relative_to : Text → Text) (p q : Text) (row : Entry) (t : Table) (o : Option Entry)
    → find_row (relative_to p) t ≡ o
    → find_row q t ≡ some row
    → IsKnown relative_to q (planned_item p (relative_to p) o)
planned_item-IsKnown relative_to p q row t none e h = (
  refl,
  λ s.
      let found : find_row (relative_to p) t ≡ some row = rw ((same_iff (relative_to p) q).0 s) h in
      absurd cc,
)
planned_item-IsKnown relative_to p q row t (some r) e h = (refl, λ s. refl)

plan-IsKnown :
    (relative_to : Text → Text) (q : Text) (row : Entry) (t : Table) (ps : List Text)
    → find_row q t ≡ some row
    → All (IsKnown relative_to q) (plan_add_candidates relative_to t ps)
unfolding plan_add_candidates
plan-IsKnown relative_to q row t [] h = tt
plan-IsKnown relative_to q row t (p ∷ ps) h = elim (Bool-cases (is_skipped p)) [
  | inl e ↦ rw e (plan-IsKnown relative_to q row t ps h)
  | inr e ↦
      rw e
        (planned_item-IsKnown relative_to p q row t _ refl h, plan-IsKnown relative_to q row t ps h)
]

-- The item that is to be written is an update as it was planned.
abbrev Flagged : Bool → Computed → Type 0
Flagged flag (to_write ci) = ci.is_update ≡ flag
Flagged flag (unchanged_item p) = Unit
Flagged flag (failed_item e) = Unit

coded-Flagged :
    (flag : Bool) (rel : Text) (e : Error) (o : Option Text) (c : Computed)
    → elim o [ none ↦ err e | some code ↦ ok (failed_item (record { path = rel; code = code })) ]
      ≡ ok c
    → Flagged flag c
coded-Flagged flag rel e none c h = cc
coded-Flagged flag rel e (some code) c h = subst (Flagged flag) (ok-injective h) tt

captured-Flagged :
    (stop flag : Bool) (rel : Text) (r : Result Entry) (c : Computed)
    → captured stop rel flag r ≡ ok c
    → Flagged flag c
captured-Flagged stop flag rel (ok e) c h = subst (Flagged flag) (ok-injective h) refl
captured-Flagged true flag rel (err e) c h = cc
captured-Flagged false flag rel (err e) c h = coded-Flagged flag rel e (item_code e) c h

module _ (parse_entry : Files → Text → Entry → Result Entry) (files : Files) (stop : Bool) where
  known-Flagged :
      (item : PlannedAddItem) (e : Entry) (b : Bool) (c : Computed)
      → (if b
          then ok (unchanged_item item.rel_path)
          else captured stop item.rel_path true (parse_entry files item.abs_path e))
        ≡ ok c
      → Flagged true c
  known-Flagged item e true c h = subst (Flagged true) (ok-injective h) tt
  known-Flagged item e false c h = captured-Flagged stop true item.rel_path _ c h

  item-Flagged :
      (item : PlannedAddItem) (b : Bool) (c : Computed)
      → (if b
          then check_update files empty_entry item.abs_path item.db_mtime item.db_hash
            >>= compute_known parse_entry files stop item
          else captured stop item.rel_path false (parse_entry files item.abs_path empty_entry))
        ≡ ok c
      → Flagged b c
  unfolding compute_known
  item-Flagged item true c h =
      let ((status, e), _, k) =
        >>=-returns (check_update files empty_entry item.abs_path item.db_mtime item.db_hash) _ h in
      known-Flagged item e (is_not_modified status) c k
  item-Flagged item false c h =
      captured-Flagged stop false item.rel_path (parse_entry files item.abs_path empty_entry) c h

  module _ (relative_to absolute : Text → Text)
      (parsed_path : (f : Files) (p : Text) (e e' : Entry)
        → parse_entry f p e ≡ ok e'
        → e'.path ≡ relative_to p)
      (q : Text) where
    put_first-Updates :
        (item : PlannedAddItem) (c : Computed) (r : ComputePhase)
        → IsKnown relative_to q item
        → computed_path c ≡ item.rel_path
        → Flagged item.exists_in_db c
        → All (Updates q) r.computed
        → All (Updates q) (put_first c r).computed
    put_first-Updates item (to_write ci) r k p f a = ((λ s. f ∙ k.1 (rw (← p) s)), a)
    put_first-Updates item (unchanged_item x) r k p f a = a
    put_first-Updates item (failed_item x) r k p f a = a

    computed-Updates :
        (items : List PlannedAddItem) (r : ComputePhase)
        → All (IsKnown relative_to q) items
        → compute_add_entries parse_entry files stop items ≡ ok r
        → All (Updates q) r.computed
    unfolding compute_add_entries compute_item
    computed-Updates [] r a h = rw (← ok-injective h) tt
    computed-Updates (item ∷ items) r a h =
        let (c, hc, h1) = >>=-returns (compute_item parse_entry files stop item) _ h in
        let (r0, hr, h2) = >>=-returns (compute_add_entries parse_entry files stop items) _ h1 in
        rw (← ok-injective h2) (
          put_first-Updates item c r0 a.0
            (compute_item-path relative_to absolute parse_entry parsed_path files stop item c a.0.0
              hc)
            (item-Flagged item item.exists_in_db c hc) (computed-Updates items r0 a.1 hr))

module _ (relative_to absolute : Text → Text) (parse_entry : Files → Text → Entry → Result Entry)
    (parsed_path : (f : Files) (p : Text) (e e' : Entry)
      → parse_entry f p e ≡ ok e'
      → e'.path ≡ relative_to p)
    (callback : Option (Entry → Bool → Bool)) where
  only_connection-committed :
      (out : Result Batch × Connection Table) (c : Connection Table)
      → only_connection relative_to absolute parse_entry callback out ≡ ok c
      → out.1.committed ≡ c.committed
  only_connection-committed (err e, c') c h = cc
  only_connection-committed (ok b, c') c h =
      ap (λ (x : Connection Table). x.committed) (ok-injective h)

  -- `addToIndex` outside a transaction, where no other writer changes the table meanwhile, leaves the
  -- row of each path that the index has as it is, also where the file has changed.
  pub indexed_rows_stay :
      (ps : List Text) (pass : Pass) (t : Table) (c : Connection Table) (q : Text) (row : Entry)
      → pass.others t ≡ t
      → find_row q t ≡ some row
      → add_to_index relative_to absolute parse_entry callback ps pass
          (record { committed = t; working = none })
        ≡ ok c
      → find_row q c.committed ≡ some row
  unfolding add_to_index
  indexed_rows_stay ps pass t c q row alone f h =
      let items = plan_add_candidates relative_to t ps in
      let (r, computed, h1) =
        >>=-returns (compute_add_entries parse_entry pass.at_compute true items) _ h in
      let u =
        computed-Updates parse_entry pass.at_compute true relative_to absolute parsed_path q items r
          (plan-IsKnown relative_to q row t ps f) computed in
      rw
        (
          ← only_connection-committed
              (commit_add_entries absolute pass.at_commit callback pass.begin_fault
                pass.commit_fault r.computed (record { committed = pass.others t; working = none }))
              c h1,
          alone,
        )
        (commit-stays absolute pass.at_commit callback q row pass.begin_fault pass.commit_fault
          r.computed t u f)
