-- ===== src/Sync/Outcome.antt =====
-- What `syncIndex` makes of each row.
use drone_db.Base.{
  ◌≡◌, refl, sym, ap, ◌∙◌, ◌⊎◌, inl, inr, Bool, Option, none, some, [], ◌∷◌, arith, Text, same,
  same_iff, if◌then◌else◌, Error, Result, ok, err, subst,
}
use drone_db.Index.Table.{Entry, Table, find_row, HasUniqueRows, delete_row}
use drone_db.Index.Rows.{find_row-do_update, find_row-delete}
use drone_db.Index.Check.{Files, FileStatus, not_indexed, deleted, modified, not_modified}
use drone_db.Transaction.{Connection, Fault}
use drone_db.Transaction.Atomic.{in_transaction_atomic}
use drone_db.Move.{Stored}
use drone_db.Sync.{
  Disk, Outcome, after_build, after_parse, and_then, sync_row, checked, sync_loop, sync_body,
  sync_index,
}
use drone_db.Sync.Rows.{Passes, done, pass, passed, Passes_lem}

module _ (relative_to absolute : Text → Text)
    (relative_to-absolute : (q : Text) → relative_to (absolute q) ≡ q)
    (parse_entry : Files → Text → Entry → Result Entry)
    (parsed_path : (f : Files) (q : Text) (e e' : Entry)
      → parse_entry f q e ≡ ok e'
      → e'.path ≡ relative_to q)
    (files : Files) (stuck : Text → Bool) where
  abbrev pub parsed_or : Entry → Result Entry → Option Entry
  parsed_or row (ok e) = some e
  parsed_or row (err x) = some row

  abbrev pub synced_by : Entry → Result (FileStatus × Entry) → Option Entry
  synced_by row (err x) = some row
  synced_by row (ok (deleted, e)) = none
  synced_by row (ok (modified, e)) = parsed_or row (parse_entry files (absolute row.path) e)
  synced_by row (ok (not_modified, e)) = some row
  synced_by row (ok (not_indexed, e)) = some row

  -- What becomes of a row: none where its file is gone, what the file says where it has changed, and
  -- otherwise the row.
  unfoldable pub synced : Entry → Option Entry
  synced row = synced_by row (checked absolute parse_entry files stuck row)

  after_build-entries :
      (row : Entry) (s : Stored) (out : Result (Unit {0}) × (Text → Bool)) (d1 : Disk)
      → after_build absolute parse_entry files stuck row s out ≡ (ok tt, d1)
      → d1.0.entries ≡ s.entries
  after_build-entries row s (err e, builds) d1 h = cc
  after_build-entries row s (ok _, builds) d1 h = sym (ap (λ (x : Outcome). x.1.0.entries) h)

  after_parse-row :
      (row : Entry) (e : Entry) (r : Result Entry) (d d1 : Disk) (p : Text)
      → parse_entry files (absolute row.path) e ≡ r
      → after_parse absolute parse_entry files stuck d r ≡ (ok tt, d1)
      → find_row row.path d.0.entries ≡ some row
      → find_row p d1.0.entries
        ≡ (if same row.path p then parsed_or row r else find_row p d.0.entries)
  after_parse-row row e (err x) d d1 p q h f = cc
  after_parse-row row e (ok e') (s, builds) d1 p q h f =
      let path_is : e'.path ≡ row.path =
        parsed_path files (absolute row.path) e e' q ∙ relative_to-absolute row.path in
      rw (← ap (λ (x : Outcome). x.1.0.entries) h)
        (find_row-do_update p e' s.entries ∙ rw path_is (ground (arith, f, same_iff row.path p)))

  sync_row-row :
      (row : Entry) (d d1 : Disk) (x : Result (FileStatus × Entry)) (p : Text)
      → sync_row absolute parse_entry files stuck row d x ≡ (ok tt, d1)
      → find_row row.path d.0.entries ≡ some row
      → find_row p d1.0.entries
        ≡ (if same row.path p then synced_by row x else find_row p d.0.entries)
  sync_row-row row d d1 (err e) p h f = cc
  sync_row-row row (s, builds) d1 (ok (deleted, e)) p h f =
      rw (after_build-entries row (record s { entries = delete_row row.path s.entries }) _ d1 h)
        (find_row-delete p row.path s.entries)
  sync_row-row row d d1 (ok (modified, e)) p h f = after_parse-row row e _ d d1 p refl h f
  sync_row-row row d d1 (ok (not_modified, e)) p h f =
      rw (← ap (λ (x : Outcome). x.1) h) (ground (arith, f, same_iff row.path p))
  sync_row-row row d d1 (ok (not_indexed, e)) p h f =
      rw (← ap (λ (x : Outcome). x.1) h) (ground (arith, f, same_iff row.path p))

  and_then-ok :
      (first : Outcome) (next : Disk → Outcome) (d' : Disk)
      → and_then first next ≡ (ok tt, d')
      → (first ≡ (ok tt, first.1)) × (next first.1 ≡ (ok tt, d'))
  and_then-ok (err e, d) next d' h = cc
  and_then-ok (ok _, d) next d' h = (refl, h)

  sync_loop-Passes :
      (rows : Table) (d d' : Disk)
      → sync_loop absolute parse_entry files stuck rows d ≡ (ok tt, d')
      → Passes synced rows d.0.entries d'.0.entries
  unfolding sync_loop synced
  sync_loop-Passes [] d d' h =
      subst (λ (x : Outcome). Passes synced [] d.0.entries x.1.0.entries) h done
  sync_loop-Passes (row ∷ rows) d d' h =
      let first =
        sync_row absolute parse_entry files stuck row d
          (checked absolute parse_entry files stuck row) in
      let (here, rest) = and_then-ok first (sync_loop absolute parse_entry files stuck rows) d' h in
      pass (λ f p. sync_row-row row d first.1 _ p here f) (sync_loop-Passes rows first.1 d' rest)

  passed_self :
      (o : Option Entry) → passed synced o o ≡ (elim o [ none ↦ none | some row ↦ synced row ])
  passed_self none = refl
  passed_self (some row) = refl

  synced_row :
      (c : Connection Stored) (builds : Text → Bool) {x : Unit {0}}
      → (sync_body absolute parse_entry files stuck builds c.committed).0 ≡ ok x
      → HasUniqueRows c.committed.entries
      → (p : Text)
      → find_row p (sync_body absolute parse_entry files stuck builds c.committed).1.entries
        ≡ (elim (find_row p c.committed.entries) [ none ↦ none | some row ↦ synced row ])
  synced_row c builds ran u p =
      let t = c.committed.entries in
      let out = sync_loop absolute parse_entry files stuck t (c.committed, builds) in
      Passes_lem synced t t out.1.0.entries p u (λ q r e. e)
        (sync_loop-Passes t (c.committed, builds) out.1 (ap (λ r. (r, out.1)) ran))
      ∙ passed_self (find_row p t)

  -- From outside a transaction, with one row for a path, and where a parsed entry has the path of
  -- its file, a synchronisation ends outside a transaction. Either it throws, and both tables are
  -- as they were, or each row of the index is gone where its file is, is what the file says where
  -- the file has changed, and is as it was otherwise; no path gets a row that had none.
  pub sync_exact :
      (f g : Fault) (c : Connection Stored) (builds : Text → Bool)
      → c.working ≡ none
      → HasUniqueRows c.committed.entries
      → let ((r, c'), builds') = sync_index absolute parse_entry files stuck f g (c, builds) in
        (c'.working ≡ none)
        × (((e : Error) × (r ≡ err e) × (c'.committed ≡ c.committed))
            ⊎ ((r ≡ ok tt)
                × ((p : Text)
                    → find_row p c'.committed.entries ≡ (elim (find_row p c.committed.entries) [
                      | none ↦ none
                      | some row ↦ synced row
                    ]))))
  unfolding sync_index
  sync_exact f g c builds w u =
      let (w', either) =
        in_transaction_atomic f g (sync_body absolute parse_entry files stuck builds) c w in
      (
        w',
        elim either [
          | inl (_, out, ran) ↦ inr (
            out,
            λ p.
                ap (λ (s : Stored). find_row p s.entries) (sym (ap (λ x. x.1) ran))
                ∙ synced_row c builds (ap (λ x. x.0) ran) u p,
          )
          | inr failed ↦ inl failed
        ],
      )
