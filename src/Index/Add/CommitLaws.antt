-- ===== src/Index/Add/CommitLaws.antt =====
-- What the commit does to the table.
use drone_db.Base.{
  ◌≡◌, refl, sym, ap, ◌∙◌, Bool, true, false, not, Option, none, some, List, [], ◌∷◌, arith, Text,
  same, same_iff, if◌then◌else◌, ok-injective, Result, ok, err, >>=-returns,
}
use drone_db.Index.Table.{Entry, Table, find_row, insert_row, has_row}
use drone_db.Index.Rows.{find_row-do_update, find_row-insert_new}
use drone_db.Index.Check.{Files}
use drone_db.Index.Add.Plan.{ComputedAddItem}
use drone_db.Index.Add.Commit.{
  Verdict, conflicting, already_there, write, verdict, Batch, nothing_done, write_row, goes_on,
  commit_item, commit_loop, after_row, map_ok,
}

-- the row that was last written for a path
abbrev pub last_written : Text → List (Entry × Bool) → Option Entry
last_written p [] = none
last_written p ((e, inserted) ∷ rows) = elim (last_written p rows) [
  | some row ↦ some row
  | none ↦ if same e.path p then some e else none
]

abbrev pub or_else {ℓ} : {A : Type ℓ} → Option A → Option A → Option A
or_else none b = b
or_else (some a) b = some a

-- What one statement does to a path.
pub write_row_lem :
    (inserted : Bool) (e : Entry) (t t' : Table) (p : Text)
    → inserted ≡ not (has_row e.path t)
    → write_row inserted e t ≡ ok t'
    → find_row p t' ≡ (if same e.path p then some e else find_row p t)
unfolding insert_row
write_row_lem true e t t' p i h = ground (arith, find_row-insert_new p e t)
write_row_lem false e t t' p i h = ground (arith, find_row-do_update p e t, same_iff e.path p)

pub map_ok-eq-ok {ℓ κ} :
    {A : Type ℓ} {B : Type κ} (f : A → B) (r : Result A) {b : B}
    → map_ok f r ≡ ok b
    → (a : A) × (r ≡ ok a) × (f a ≡ b)
map_ok-eq-ok f (ok a) h = (a, refl, ok-injective h)
map_ok-eq-ok f (err e) h = cc

module _ (absolute : Text → Text) (files : Files) (callback : Option (Entry → Bool → Bool)) where
  -- How the loop goes on from one item, when it does not throw.
  pub data CommitStep (ci : ComputedAddItem) (t : Table) (rest : Table → Result (Batch × Table))
      (b : Batch) (t' : Table) : Type 0 where
    conflict_step :
        (b0 : Batch)
        → rest t ≡ ok (b0, t')
        → b ≡ record b0 { conflicts = absolute ci.entry.path ∷ b0.conflicts }
        → CommitStep ci t rest b t'
    unchanged_step :
        (b0 : Batch)
        → rest t ≡ ok (b0, t')
        → b ≡ record b0 { unchanged = ci.entry.path ∷ b0.unchanged }
        → CommitStep ci t rest b t'
    row_step :
        (b0 : Batch) (inserted : Bool) (t1 : Table)
        → inserted ≡ not (has_row ci.entry.path t)
        → write_row inserted ci.entry t ≡ ok t1
        → rest t1 ≡ ok (b0, t')
        → b ≡ record b0 { tentative = (ci.entry, inserted) ∷ b0.tentative }
        → CommitStep ci t rest b t'
    stop_step :
        (inserted : Bool)
        → inserted ≡ not (has_row ci.entry.path t)
        → write_row inserted ci.entry t ≡ ok t'
        → goes_on callback ci.entry inserted ≡ false
        → b ≡ record nothing_done { tentative = (ci.entry, inserted) ∷ []; canceled = true }
        → CommitStep ci t rest b t'

  written_flag :
      (ci : ComputedAddItem) (t t1 : Table) (inserted : Bool)
      → verdict files (absolute ci.entry.path) ci t ≡ write inserted
      → write_row inserted ci.entry t ≡ ok t1
      → inserted ≡ not (has_row ci.entry.path t)
  unfolding verdict insert_row
  written_flag ci t t1 true v h = ground arith
  written_flag ci t t1 false v h = ground arith

  row_item_step :
      (ci : ComputedAddItem) (t t1 : Table) (rest : Table → Result (Batch × Table)) (b : Batch)
      (t' : Table) (inserted goes : Bool)
      → inserted ≡ not (has_row ci.entry.path t)
      → write_row inserted ci.entry t ≡ ok t1
      → goes_on callback ci.entry inserted ≡ goes
      → after_row goes (ci.entry, inserted) rest t1 ≡ ok (b, t')
      → CommitStep ci t rest b t'
  row_item_step ci t t1 rest b t' inserted true i w g h =
      let ((b0, t0), r, e) = map_ok-eq-ok _ (rest t1) h in
      row_step b0 inserted t1 i w (r ∙ ap (λ x. ok (b0, x)) (ap (λ x. x.1) e))
        (sym (ap (λ x. x.0) e))
  row_item_step ci t t1 rest b t' inserted false i w g h =
      let e = ok-injective h in
      stop_step inserted i (w ∙ ap ok (ap (λ x. x.1) e)) g (sym (ap (λ x. x.0) e))

  item_step :
      (ci : ComputedAddItem) (t : Table) (rest : Table → Result (Batch × Table)) (b : Batch)
      (t' : Table) (v : Verdict)
      → verdict files (absolute ci.entry.path) ci t ≡ v
      → commit_item absolute files callback ci t rest v ≡ ok (b, t')
      → CommitStep ci t rest b t'
  item_step ci t rest b t' conflicting v h =
      let ((b0, t0), r, e) = map_ok-eq-ok _ (rest t) h in
      conflict_step b0 (r ∙ ap (λ x. ok (b0, x)) (ap (λ x. x.1) e)) (sym (ap (λ x. x.0) e))
  item_step ci t rest b t' already_there v h =
      let ((b0, t0), r, e) = map_ok-eq-ok _ (rest t) h in
      unchanged_step b0 (r ∙ ap (λ x. ok (b0, x)) (ap (λ x. x.1) e)) (sym (ap (λ x. x.0) e))
  item_step ci t rest b t' (write inserted) v h =
      let (t1, w, h1) = >>=-returns (write_row inserted ci.entry t) _ h in
      row_item_step ci t t1 rest b t' inserted (goes_on callback ci.entry inserted)
        (written_flag ci t t1 inserted v w) w refl h1

  pub loop_step :
      (ci : ComputedAddItem) (cis : List ComputedAddItem) (t t' : Table) (b : Batch)
      → commit_loop absolute files callback (ci ∷ cis) t ≡ ok (b, t')
      → CommitStep ci t (commit_loop absolute files callback cis) b t'
  unfolding commit_loop
  loop_step ci cis t t' b h =
      item_step ci t (commit_loop absolute files callback cis) b t'
        (verdict files (absolute ci.entry.path) ci t) refl h

  pub loop_nil :
      (t t' : Table) (b : Batch)
      → commit_loop absolute files callback [] t ≡ ok (b, t')
      → (b ≡ nothing_done) × (t ≡ t')
  unfolding commit_loop
  loop_nil t t' b h = let e = ok-injective h in (sym (ap (λ x. x.0) e), ap (λ x. x.1) e)

  -- The table after a commit that did not throw: each path has the row that was last accepted for
  -- it, and keeps its former row, or none, where none was accepted.
  pub commit_writes_accepted :
      (cis : List ComputedAddItem) (t t' : Table) (b : Batch) (p : Text)
      → commit_loop absolute files callback cis t ≡ ok (b, t')
      → find_row p t' ≡ or_else (last_written p b.tentative) (find_row p t)
  commit_writes_accepted [] t t' b p h = let (e, f) = loop_nil t t' b h in rw (e, ← f)
  commit_writes_accepted (ci ∷ cis) t t' b p h = elim (loop_step ci cis t t' b h) [
    | conflict_step b0 r e ↦ rw e (commit_writes_accepted cis t t' b0 p r)
    | unchanged_step b0 r e ↦ rw e (commit_writes_accepted cis t t' b0 p r)
    | row_step b0 inserted t1 i w r e ↦ rw e (
        ground (
          arith,
          commit_writes_accepted cis t1 t' b0 p r,
          write_row_lem inserted ci.entry t t1 p i w,
        ))
    | stop_step inserted i w g e ↦ rw e (ground (arith, write_row_lem inserted ci.entry t t' p i w))
  ]
