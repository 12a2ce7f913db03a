-- ===== src/Sync/Rescan.antt =====
-- What `rescanIndex` makes of each row.
use drone_db.Base.{
  ◌≡◌, refl, ◌∙◌, ◌⊎◌, inl, inr, Bool, true, false, Option, none, some, List, [], ◌∷◌, arith, Text,
  same, same_iff, keep, if◌then◌else◌, Bool-cases, Error, Result, ok, err, fs_error, subst,
}
use drone_db.Index.Table.{EntryType, Entry, Table, empty_entry, find_row, HasUniqueRows, do_update}
use drone_db.Index.Rows.{find_row-do_update}
use drone_db.Index.Check.{Files}
use drone_db.Transaction.{Connection, Fault, construct, exec_begin, commit, destroy}
use drone_db.Move.{Stored}
use drone_db.Sync.{
  Callback, Scan, finished, canceled, failed, wanted, skip_row, update_row, rescan_loop, end_scan,
  rescan_index,
}
use drone_db.Sync.Rows.{Passes, done, pass, passed, Passes_lem, keep-HasUniqueRows, find_row-keep}

module _ (relative_to absolute : Text → Text)
    (relative_to-absolute : (q : Text) → relative_to (absolute q) ≡ q)
    (parse_entry : Files → Text → Entry → Result Entry)
    (parsed_path : (f : Files) (q : Text) (e e' : Entry)
      → parse_entry f q e ≡ ok e'
      → e'.path ≡ relative_to q)
    (files : Files) (stop_on_error : Bool) (callback : Callback) where
  abbrev pub parsed_or : Entry → Result Entry → Option Entry
  parsed_or row (ok e) = some e
  parsed_or row (err x) = some row

  -- What becomes of a row that the scan passes: what its file says, or the row, where the file is
  -- missing or cannot be parsed.
  unfoldable pub rescanned : Entry → Option Entry
  rescanned row =
      if files.exists (absolute row.path)
      then parsed_or row (parse_entry files (absolute row.path) empty_entry)
      else some row

  skip_row-finished :
      (p : Text) (e : Error) (rest : Scan) (t' : Table)
      → skip_row absolute parse_entry files stop_on_error callback p e rest ≡ finished t'
      → rest ≡ finished t'
  skip_row-finished p e rest t' h = ground arith

  kept_row :
      (row : Entry) (t : Table)
      → find_row row.path t ≡ some row
      → (p : Text) → find_row p t ≡ (if same row.path p then some row else find_row p t)
  kept_row row t f p = ground (arith, f, same_iff row.path p)

  updated_row :
      (row e : Entry) (t : Table)
      → parse_entry files (absolute row.path) empty_entry ≡ ok e
      → find_row row.path t ≡ some row
      → (p : Text) → find_row p (do_update e t) ≡ (if same row.path p then some e else find_row p t)
  updated_row row e t h f p =
      let path_is : e.path ≡ row.path =
        parsed_path files (absolute row.path) empty_entry e h ∙ relative_to-absolute row.path in
      find_row-do_update p e t ∙ rw path_is (ground (arith, f, same_iff row.path p))

  -- How the loop goes on from a row, where it reaches the end.
  RowPasses : Entry → Table → Table → Table → Type 0
  RowPasses row rows t t' =
      (t1 : Table) × (find_row row.path t ≡ some row
        → (p : Text) → find_row p t1 ≡ (if same row.path p then rescanned row else find_row p t))
      × (rescan_loop absolute parse_entry files stop_on_error callback rows t1 ≡ finished t')

  parse-RowPasses :
      (row : Entry) (rows t t' : Table) (r : Result Entry)
      → files.exists (absolute row.path) ≡ true
      → parse_entry files (absolute row.path) empty_entry ≡ r
      → update_row absolute parse_entry files stop_on_error callback row.path t
          (rescan_loop absolute parse_entry files stop_on_error callback rows)
          r
        ≡ finished t'
      → RowPasses row rows t t'
  unfolding RowPasses rescanned
  parse-RowPasses row rows t t' (err x) there q h =
      (t, (λ f p. rw (there, q) (kept_row row t f p)), skip_row-finished row.path x _ t' h)
  parse-RowPasses row rows t t' (ok e) there q h =
      (do_update e t, (λ f p. rw (there, q) (updated_row row e t q f p)), ground (arith, h))

  row-RowPasses :
      (row : Entry) (rows t t' : Table) (there : Bool)
      → files.exists (absolute row.path) ≡ there
      → (if there
          then update_row absolute parse_entry files stop_on_error callback row.path t
              (rescan_loop absolute parse_entry files stop_on_error callback rows)
              (parse_entry files (absolute row.path) empty_entry)
          else skip_row absolute parse_entry files stop_on_error callback row.path fs_error
              (rescan_loop absolute parse_entry files stop_on_error callback rows t))
        ≡ finished t'
      → RowPasses row rows t t'
  unfolding RowPasses rescanned
  row-RowPasses row rows t t' true e h = parse-RowPasses row rows t t' _ e refl h
  row-RowPasses row rows t t' false e h =
      (t, (λ f p. rw e (kept_row row t f p)), skip_row-finished row.path fs_error _ t' h)

  rescan_loop-Passes :
      (rows t t' : Table)
      → rescan_loop absolute parse_entry files stop_on_error callback rows t ≡ finished t'
      → Passes rescanned rows t t'
  unfolding rescan_loop RowPasses
  rescan_loop-Passes [] t t' h = let e : t ≡ t' = cc in subst (λ x. Passes rescanned [] t x) e done
  rescan_loop-Passes (row ∷ rows) t t' h =
      let (t1, step, rest) =
        row-RowPasses row rows t t' (files.exists (absolute row.path)) refl h in
      pass step (rescan_loop-Passes rows t1 t' rest)

  passed-wanted :
      (types : List EntryType) (o : Option Entry)
      → passed rescanned
          (elim o [ none ↦ none | some row ↦ if wanted types row then some row else none ])
          o
        ≡ (elim o [ none ↦ none | some row ↦ if wanted types row then rescanned row else some row ])
  passed-wanted types none = refl
  passed-wanted types (some row) = elim (Bool-cases (wanted types row)) [
    | inl t ↦ rw t refl
    | inr f ↦ rw f refl
  ]

  scanned_row :
      (types : List EntryType) (t t' : Table)
      → HasUniqueRows t
      → rescan_loop absolute parse_entry files stop_on_error callback (keep (wanted types) t) t
        ≡ finished t'
      → (p : Text)
      → find_row p t' ≡ (elim (find_row p t) [
        | none ↦ none
        | some row ↦ if wanted types row then rescanned row else some row
      ])
  scanned_row types t t' u h p =
      let rows = keep (wanted types) t in
      let kept : (q : Text) (row : Entry) → find_row q rows ≡ some row → find_row q t ≡ some row =
        λ q row e. ground (arith, find_row-keep (wanted types) q t u, e) in
      Passes_lem rescanned rows t t' p (keep-HasUniqueRows (wanted types) t u) kept
        (rescan_loop-Passes rows t t' h)
      ∙ rw (find_row-keep (wanted types) p t u) (passed-wanted types (find_row p t))

  -- What a rescan leaves.
  abbrev pub ScansOrNot : List EntryType → Stored → Result (Unit {0}) × Connection Stored → Type 0
  ScansOrNot types s (r, c) =
      (c.working ≡ none)
      × (((e : Error) × (r ≡ err e) × (c.committed ≡ s))
          ⊎ ((r ≡ ok tt)
              × (c.committed ≡ s)
              × (rescan_loop absolute parse_entry files stop_on_error callback
                    (keep (wanted types) s.entries) s.entries
                  ≡ canceled))
          ⊎ ((r ≡ ok tt)
              × (c.committed.metas ≡ s.metas)
              × ((p : Text)
                  → find_row p c.committed.entries ≡ (elim (find_row p s.entries) [
                    | none ↦ none
                    | some row ↦ if wanted types row then rescanned row else some row
                  ]))))

  ended-ScansOrNot :
      (types : List EntryType) (s : Stored) (fault : Fault) (scan : Scan)
      → HasUniqueRows s.entries
      → rescan_loop absolute parse_entry files stop_on_error callback
          (keep (wanted types) s.entries)
          s.entries
        ≡ scan
      → ScansOrNot types s (
          end_scan absolute parse_entry files stop_on_error callback fault
            (record { attached = true; finished = false })
            (record { committed = s; working = some s })
            s
            scan)
  unfolding end_scan destroy commit
  ended-ScansOrNot types s fault (failed e) u h = (refl, inl (e, refl, refl))
  ended-ScansOrNot types s fault canceled u h = (refl, inr (inl (refl, refl, h)))
  ended-ScansOrNot types s (some e) (finished t) u h = (refl, inl (e, refl, refl))
  ended-ScansOrNot types s none (finished t) u h =
      (refl, inr (inr (refl, refl, scanned_row types s.entries t u h)))

  -- From outside a transaction, with one row for a path, and where a parsed entry has the path of
  -- its file, a rescan ends outside a transaction. It throws or is cancelled by its callback, and
  -- both tables are as they were, or each row of the types that are asked for, folders excepted, is
  -- what its file says where the file can be read; every other row, and the metadata, stay.
  pub rescan_exact :
      (f g : Fault) (types : List EntryType) (s : Stored)
      → HasUniqueRows s.entries
      → ScansOrNot types s (
          rescan_index absolute parse_entry files stop_on_error callback f g types
            (record { committed = s; working = none }))
  unfolding rescan_index construct exec_begin
  rescan_exact (some e) g types s u = (refl, inl (e, refl, refl))
  rescan_exact none g types s u = ended-ScansOrNot types s g _ u refl
