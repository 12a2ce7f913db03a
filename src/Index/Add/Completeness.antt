-- ===== src/Index/Add/Completeness.antt =====
-- Where the paths of a call of `addToIndexEx` end up.
use drone_db.Base.{
  ℕ, zero, suc, ◌+◌, ◌≡◌, refl, sym, ap, subst, ◌∙◌, Bool, false, Option, none, some, List, [], ◌∷◌,
  ◌++◌, map, arith, Text, All, ok-injective, Result, ok, err, >>=-returns, inl, inr,
}
use drone_db.Transaction.{Connection}
use drone_db.Index.Table.{Entry, Table, find_row}
use drone_db.Index.Check.{Files}
use drone_db.Index.Add.Counts.{tally, tally-append, tally-map}
use drone_db.Index.Add.Plan.{
  ComputedAddItem, ComputePhase, planned_item, plan_add_candidates, is_skipped, compute_add_entries,
}
use drone_db.Index.Add.Commit.{Batch, commit_loop}
use drone_db.Index.Add.CommitLaws.{
  conflict_step, unchanged_step, row_step, stop_step, loop_step, loop_nil,
}
use drone_db.Index.Add.Outcome.{CommitsOrNot, commit_all_or_nothing}
use drone_db.Index.Add.ComputeLaws.{
  id, entry_path, error_path, rel_path_of, IsPlanned, IsKept, reported, compute_reports,
  computed-IsKept,
}
use drone_db.Index.Add.Passes.{
  AddOptions, AddResult, State, Pass, after_commit, one_pass, pass_loop, add_to_index_ex, clamped,
  conflict_error, extended,
}

abbrev pub row_path : Entry × Bool → Text
row_path (e, inserted) = e.path

-- the paths that a result reports
abbrev pub accounted : Text → AddResult → ℕ
accounted p r = tally row_path p r.entries + tally id p r.unchanged + tally error_path p r.errors

abbrev pub nothing_yet : AddResult
nothing_yet = record { entries = []; unchanged = []; errors = [] }

module _ (relative_to absolute : Text → Text)
    (relative_to-absolute : (q : Text) → relative_to (absolute q) ≡ q)
    (is_skipped-absolute : (q : Text) → is_skipped (absolute (relative_to q)) ≡ is_skipped q) where
  abbrev pub Kept : Text → Type 0
  Kept q = is_skipped q ≡ false

  planned_item-IsPlanned :
      (q : Text) (row : Option Entry)
      → is_skipped q ≡ false
      → IsPlanned relative_to absolute (planned_item q (relative_to q) row)
  planned_item-IsPlanned q none h = (refl, is_skipped-absolute q ∙ h)
  planned_item-IsPlanned q (some row) h = (refl, is_skipped-absolute q ∙ h)

  planned_item-rel_path :
      (q : Text) (row : Option Entry)
      → rel_path_of (planned_item q (relative_to q) row) ≡ relative_to q
  planned_item-rel_path q none = refl
  planned_item-rel_path q (some row) = refl

  plan-IsPlanned :
      (t : Table) (paths : List Text)
      → All Kept paths
      → All (IsPlanned relative_to absolute) (plan_add_candidates relative_to t paths)
  unfolding plan_add_candidates
  plan-IsPlanned t [] a = tt
  plan-IsPlanned t (q ∷ paths) a =
      rw (a.0) (planned_item-IsPlanned q _ a.0, plan-IsPlanned t paths a.1)

  plan_tally :
      (t : Table) (paths : List Text) (p : Text)
      → All Kept paths
      → tally relative_to p paths ≡ tally rel_path_of p (plan_add_candidates relative_to t paths)
  unfolding plan_add_candidates
  plan_tally t [] p a = refl
  plan_tally t (q ∷ paths) p a =
      rw (a.0, planned_item-rel_path q (find_row (relative_to q) t), plan_tally t paths p a.1) refl

  module _ (files : Files) where
    commit_tally :
        (cis : List ComputedAddItem) (t t' : Table) (b : Batch) (p : Text)
        → commit_loop absolute files none cis t ≡ ok (b, t')
        → tally entry_path p cis
          ≡ tally row_path p b.tentative + tally id p b.unchanged + tally relative_to p b.conflicts
    commit_tally [] t t' b p h = rw ((loop_nil absolute files none t t' b h).0) refl
    commit_tally (ci ∷ cis) t t' b p h = elim (loop_step absolute files none ci cis t t' b h) [
      | conflict_step b0 r e ↦
          rw (e, relative_to-absolute ci.entry.path) (omega (arith, commit_tally cis t t' b0 p r))
      | unchanged_step b0 r e ↦ rw e (omega (arith, commit_tally cis t t' b0 p r))
      | row_step b0 inserted t1 i w r e ↦ rw e (omega (arith, commit_tally cis t1 t' b0 p r))
      | stop_step inserted i w g e ↦ cc
    ]

    commit-Kept :
        (cis : List ComputedAddItem) (t t' : Table) (b : Batch)
        → commit_loop absolute files none cis t ≡ ok (b, t')
        → All (IsKept absolute) cis
        → (b.canceled ≡ false) × All Kept b.conflicts
    commit-Kept [] t t' b h a = rw ((loop_nil absolute files none t t' b h).0) (refl, tt)
    commit-Kept (ci ∷ cis) t t' b h a = elim (loop_step absolute files none ci cis t t' b h) [
      | conflict_step b0 r e ↦ let (c, k) = commit-Kept cis t t' b0 r a.1 in rw e (c, (a.0, k))
      | unchanged_step b0 r e ↦ rw e (commit-Kept cis t t' b0 r a.1)
      | row_step b0 inserted t1 i w r e ↦ rw e (commit-Kept cis t1 t' b0 r a.1)
      | stop_step inserted i w g e ↦ cc
    ]

  module _ (parse_entry : Files → Text → Entry → Result Entry)
      (parsed_path : (f : Files) (q : Text) (e e' : Entry)
        → parse_entry f q e ≡ ok e'
        → e'.path ≡ relative_to q) where
    -- What one pass leaves to do is what it does not report.
    abbrev pub Accounts : List Text → AddResult → State → Type 0
    Accounts paths r (r', left, c) =
        (c.working ≡ none)
        × All Kept left
        × ((p : Text)
            → tally relative_to p paths + accounted p r ≡ tally relative_to p left + accounted p r')

    extended_accounts :
        (r : AddResult) (c : ComputePhase) (b : Batch) (p : Text)
        → tally entry_path p c.computed
          ≡ tally row_path p b.tentative + tally id p b.unchanged + tally relative_to p b.conflicts
        → reported p c + accounted p r
          ≡ tally relative_to p b.conflicts + accounted p (extended r c b)
    extended_accounts r c b p h =
        rw
          (
            tally-append row_path p r.entries b.tentative,
            tally-append id p (r.unchanged ++ c.unchanged) b.unchanged,
            tally-append id p r.unchanged c.unchanged,
            tally-append error_path p r.errors c.errors,
          )
          (omega (arith, h))

    committed-Accounts :
        (files : Files) (r : AddResult) (c : ComputePhase) (t : Table) (paths : List Text)
        (rb : Result Batch) (conn : Connection Table) (s : State)
        → All (IsKept absolute) c.computed
        → ((p : Text) → tally relative_to p paths ≡ reported p c)
        → CommitsOrNot absolute files none c.computed t (rb, conn)
        → after_commit relative_to absolute parse_entry none r c (rb, conn) ≡ ok s
        → Accounts paths r s
    committed-Accounts files r c t paths (err e) conn s k m cn h = cc
    committed-Accounts files r c t paths (ok b) conn s k m (w, inl (e, x, _)) h = cc
    committed-Accounts files r c t paths (ok b) conn s k m
          (w, inr (inl (b0, x, canceled, _, (t', l)))) h =
        let (going, _) = commit-Kept files c.computed t t' b0 l k in cc
    committed-Accounts files r c t paths (ok b) conn s k m (w, inr (inr (b0, x, _, l))) h =
        let l' = l ∙ ap (λ y. ok (y, conn.committed)) (sym (ok-injective x)) in
        subst (Accounts paths r) (ok-injective h) (
          w,
          (commit-Kept files c.computed t conn.committed b l' k).1,
          λ p.
              ap (λ n. n + accounted p r) (m p)
              ∙ extended_accounts r c b p (commit_tally files c.computed t conn.committed b p l'),
        )

    pass-Accounts :
        (stop_on_error : Bool) (pass : Pass) (r : AddResult) (paths : List Text) (t : Table)
        (s : State)
        → All Kept paths
        → one_pass relative_to absolute parse_entry none stop_on_error pass r paths
            (record { committed = t; working = none })
          ≡ ok s
        → Accounts paths r s
    unfolding one_pass
    pass-Accounts stop_on_error pass r paths t s a h =
        let planned = plan_add_candidates relative_to t paths in
        let (c, hc, h1) =
          >>=-returns (compute_add_entries parse_entry pass.at_compute stop_on_error planned) _ h in
        let k = plan-IsPlanned t paths a in
        committed-Accounts pass.at_commit r c (pass.others t) paths _ _ s
          (computed-IsKept relative_to absolute parse_entry parsed_path pass.at_compute
            stop_on_error planned c k hc)
          (λ p.
            plan_tally t paths p a
            ∙ compute_reports relative_to absolute parse_entry parsed_path pass.at_compute
                stop_on_error planned c p k hc)
          (commit_all_or_nothing absolute pass.at_commit none pass.begin_fault pass.commit_fault
            c.computed (pass.others t))
          h1

    loop-Accounts :
        (fuel : ℕ) (stop_on_error : Bool) (passes : ℕ → Pass) (n : ℕ) (r : AddResult)
        (paths : List Text) (c : Connection Table) (s : State)
        → c.working ≡ none
        → All Kept paths
        → pass_loop relative_to absolute parse_entry none fuel stop_on_error passes n (r, paths, c)
          ≡ ok s
        → Accounts paths r s
    unfolding pass_loop
    loop-Accounts zero stop_on_error passes n r paths c s w a h =
        subst (Accounts paths r) (ok-injective h) (w, a, λ p. refl)
    loop-Accounts (suc fuel) stop_on_error passes n r [] c s w a h =
        subst (Accounts [] r) (ok-injective h) (w, tt, λ p. refl)
    loop-Accounts (suc fuel) stop_on_error passes n r (q ∷ qs) c s w a h =
        let ((r1, left, c1), h1, h2) =
          >>=-returns
            (one_pass relative_to absolute parse_entry none stop_on_error (passes n) r (q ∷ qs) c) _
            h in
        let (w1, a1, m1) =
          pass-Accounts stop_on_error (passes n) r (q ∷ qs) c.committed (r1, left, c1) a
            (sym (
                ap
                  (λ x.
                    one_pass relative_to absolute parse_entry none stop_on_error (passes n) r
                      (q ∷ qs) (record { committed = c.committed; working = x }))
                  w)
              ∙ h1) in
        let (w2, a2, m2) = loop-Accounts fuel stop_on_error passes (suc n) r1 left c1 s w1 a1 h2 in
        (w2, a2, λ p. m1 p ∙ m2 p)

    conflicts_accounted :
        (r : AddResult) (left : List Text) (p : Text)
        → accounted p
            (record r { errors = r.errors ++ map (λ q. conflict_error (relative_to q)) left })
          ≡ tally relative_to p left + accounted p r
    conflicts_accounted r left p =
        rw
          (
            tally-append error_path p r.errors (map (λ q. conflict_error (relative_to q)) left),
            tally-map error_path (λ q. conflict_error (relative_to q)) p left,
          )
          (omega arith)

    -- A call of `addToIndexEx` without a callback that does not throw reports every path that it was
    -- given as often as it was given it, as an entry, as unchanged or as an error, where no given
    -- path is one that planning skips, an entry that is parsed has the path of its file, and the
    -- two conversions of paths fit.
    pub every_path_is_reported :
        (path_list : List Text) (options : AddOptions) (passes : ℕ → Pass) (t : Table)
        (r : AddResult) (c : Connection Table)
        → All Kept path_list
        → add_to_index_ex relative_to absolute parse_entry none path_list options passes nothing_yet
            (record { committed = t; working = none })
          ≡ ok (r, c)
        → (p : Text) → tally relative_to p path_list ≡ accounted p r
    unfolding add_to_index_ex
    every_path_is_reported path_list options passes t r c a h p =
        let ((r1, left, c1), hl, he) =
          >>=-returns
            (pass_loop relative_to absolute parse_entry none
              (suc (clamped options.max_conflict_retries)) options.stop_on_error passes 0
              (nothing_yet, path_list, record { committed = t; working = none }))
            _ h in
        let (_, _, m) =
          loop-Accounts (suc (clamped options.max_conflict_retries)) options.stop_on_error passes 0
            nothing_yet path_list (record { committed = t; working = none }) (r1, left, c1) refl a
            hl in
        rw (← ap (λ x. x.0) (ok-injective he)) (omega (arith, m p, conflicts_accounted r1 left p))
