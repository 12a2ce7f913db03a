-- ===== src/Index/Add/ComputeLaws.antt =====
-- What the computation makes of the planned items.
use drone_db.Base.{
  ℕ, ◌+◌, ◌≡◌, refl, sym, ap, ◌∙◌, Bool, true, false, Option, none, some, List, [], ◌∷◌, arith,
  Text, same, All, ok-injective, Error, Result, ok, err, ◌>>=◌, >>=-returns, if◌then◌else◌,
}
use drone_db.Index.Table.{Entry, empty_entry}
use drone_db.Index.Check.{Files, check_update}
use drone_db.Index.Add.Counts.{tally, one}
use drone_db.Index.Add.Plan.{
  PlannedAddItem, ComputedAddItem, AddItemError, Computed, to_write, unchanged_item, failed_item,
  ComputePhase, is_skipped, item_code, or_item_error, captured, put_first, compute_known,
  compute_item, compute_add_entries, is_not_modified,
}

abbrev pub id : Text → Text
id p = p

abbrev pub entry_path : ComputedAddItem → Text
entry_path ci = ci.entry.path

abbrev pub error_path : AddItemError → Text
error_path e = e.path

abbrev pub rel_path_of : PlannedAddItem → Text
rel_path_of item = item.rel_path

abbrev pub computed_path : Computed → Text
computed_path (to_write ci) = ci.entry.path
computed_path (unchanged_item p) = p
computed_path (failed_item e) = e.path

-- where the paths of a computation end up
abbrev pub reported : Text → ComputePhase → ℕ
reported p r = tally entry_path p r.computed + tally error_path p r.errors + tally id p r.unchanged

reported-put_first :
    (p : Text) (c : Computed) (r : ComputePhase)
    → reported p (put_first c r) ≡ one (same (computed_path c) p) + reported p r
reported-put_first p (to_write ci) r = omega arith
reported-put_first p (unchanged_item q) r = omega arith
reported-put_first p (failed_item e) r = omega arith

-- what planning makes sure of
abbrev pub IsPlanned : (Text → Text) → (Text → Text) → PlannedAddItem → Type 0
IsPlanned relative_to absolute item =
    (item.rel_path ≡ relative_to item.abs_path) × (is_skipped (absolute item.rel_path) ≡ false)

abbrev pub IsKept : (Text → Text) → ComputedAddItem → Type 0
IsKept absolute ci = is_skipped (absolute ci.entry.path) ≡ false

module _ (relative_to absolute : Text → Text) (parse_entry : Files → Text → Entry → Result Entry)
    (parsed_path : (f : Files) (q : Text) (e e' : Entry)
      → parse_entry f q e ≡ ok e'
      → e'.path ≡ relative_to q)
    (files : Files) (stop_on_error : Bool) where
  coded_path :
      (rel : Text) (e : Error) (o : Option Text) (c : Computed)
      → elim o [ none ↦ err e | some code ↦ ok (failed_item (record { path = rel; code = code })) ]
        ≡ ok c
      → computed_path c ≡ rel
  coded_path rel e none c h = cc
  coded_path rel e (some code) c h = sym (ap computed_path (ok-injective h))

  failed_path :
      (b : Bool) (rel : Text) (e : Error) (c : Computed)
      → or_item_error b rel e ≡ ok c
      → computed_path c ≡ rel
  failed_path true rel e c h = cc
  failed_path false rel e c h = coded_path rel e (item_code e) c h

  captured_path :
      (q rel : Text) (is_update : Bool) (e : Entry) (r : Result Entry) (c : Computed)
      → rel ≡ relative_to q
      → parse_entry files q e ≡ r
      → captured stop_on_error rel is_update r ≡ ok c
      → computed_path c ≡ rel
  captured_path q rel is_update e (ok e') c s h k =
      sym (ap computed_path (ok-injective k)) ∙ parsed_path files q e e' h ∙ sym s
  captured_path q rel is_update e (err x) c s h k = failed_path stop_on_error rel x c k

  known_path :
      (item : PlannedAddItem) (e : Entry) (b : Bool) (c : Computed)
      → item.rel_path ≡ relative_to item.abs_path
      → (if b
          then ok (unchanged_item item.rel_path)
          else captured stop_on_error item.rel_path true (parse_entry files item.abs_path e))
        ≡ ok c
      → computed_path c ≡ item.rel_path
  known_path item e true c s h = sym (ap computed_path (ok-injective h))
  known_path item e false c s h = captured_path item.abs_path item.rel_path true e _ c s refl h

  item_path :
      (item : PlannedAddItem) (b : Bool) (c : Computed)
      → item.rel_path ≡ relative_to item.abs_path
      → (if b
          then check_update files empty_entry item.abs_path item.db_mtime item.db_hash
            >>= compute_known parse_entry files stop_on_error item
          else captured stop_on_error item.rel_path false
              (parse_entry files item.abs_path empty_entry))
        ≡ ok c
      → computed_path c ≡ item.rel_path
  unfolding compute_known
  item_path item true c s h =
      let ((status, e), _, k) =
        >>=-returns (check_update files empty_entry item.abs_path item.db_mtime item.db_hash) _ h in
      known_path item e (is_not_modified status) c s k
  item_path item false c s h =
      captured_path item.abs_path item.rel_path false empty_entry _ c s refl h

  -- An item that is computed keeps its path.
  pub compute_item-path :
      (item : PlannedAddItem) (c : Computed)
      → item.rel_path ≡ relative_to item.abs_path
      → compute_item parse_entry files stop_on_error item ≡ ok c
      → computed_path c ≡ item.rel_path
  unfolding compute_item
  compute_item-path item c s h = item_path item item.exists_in_db c s h

  -- Every item that is computed ends up in one of the three lists, once.
  pub compute_reports :
      (items : List PlannedAddItem) (r : ComputePhase) (p : Text)
      → All (IsPlanned relative_to absolute) items
      → compute_add_entries parse_entry files stop_on_error items ≡ ok r
      → tally rel_path_of p items ≡ reported p r
  unfolding compute_add_entries
  compute_reports [] r p a h = rw (← ok-injective h) refl
  compute_reports (item ∷ items) r p a h =
      let (c, hc, h1) = >>=-returns (compute_item parse_entry files stop_on_error item) _ h in
      let (r0, hr, h2) =
        >>=-returns (compute_add_entries parse_entry files stop_on_error items) _ h1 in
      rw
        (
          ← ok-injective h2,
          reported-put_first p c r0,
          compute_item-path item c a.0.0 hc,
          compute_reports items r0 p a.1 hr,
        )
        refl

  put_first-IsKept :
      (c : Computed) (r : ComputePhase)
      → is_skipped (absolute (computed_path c)) ≡ false
      → All (IsKept absolute) r.computed
      → All (IsKept absolute) (put_first c r).computed
  put_first-IsKept (to_write ci) r h k = (h, k)
  put_first-IsKept (unchanged_item q) r h k = k
  put_first-IsKept (failed_item e) r h k = k

  pub computed-IsKept :
      (items : List PlannedAddItem) (r : ComputePhase)
      → All (IsPlanned relative_to absolute) items
      → compute_add_entries parse_entry files stop_on_error items ≡ ok r
      → All (IsKept absolute) r.computed
  unfolding compute_add_entries
  computed-IsKept [] r a h = rw (← ok-injective h) tt
  computed-IsKept (item ∷ items) r a h =
      let (c, hc, h1) = >>=-returns (compute_item parse_entry files stop_on_error item) _ h in
      let (r0, hr, h2) =
        >>=-returns (compute_add_entries parse_entry files stop_on_error items) _ h1 in
      rw (← ok-injective h2) (
        put_first-IsKept c r0
          (ap (λ q. is_skipped (absolute q)) (compute_item-path item c a.0.0 hc) ∙ a.0.1)
          (computed-IsKept items r0 a.1 hr))
