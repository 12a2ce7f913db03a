-- ===== src/Meta/Store.antt =====
-- What `add`, `set`, `get` and `unset` do to the values of a key.
use drone_db.Base.{
  ℕ, ◌+◌, ◌≡◌, refl, sym, ap, ◌∙◌, Bool, true, false, Option, none, some, List, [], ◌∷◌, ◌++◌, map,
  arith, Text, same, same_refl, same_iff, keep, length, if◌then◌else◌, Error, Result, ok, err,
  invalid_args, ok-injective, ◌>>=◌, >>=-returns,
}
use mathlib.Core.Path.{fun_ext}
use drone_db.Index.Table.{Table}
use drone_db.Transaction.{Fault}
use drone_db.Meta.{
  MetaRow, MetaJson, single, holds, is_blank, is_list, get_key, entry_path, validate_data,
  meta_json, found_for, delete_where, insert_row, after_insert, set_rows, set_checked, set, get,
  add, unset, fails_with,
}
use drone_db.Meta.Rows.{keep-append, keep-delete_where, length-delete_where, insert_row_lem}

kept_set :
    (p k : Text) (rows : List MetaRow) (r : MetaRow)
    → holds p k r ≡ true
    → keep (holds p k) (delete_where (holds p k) rows ++ r ∷ []) ≡ r ∷ []
unfolding keep
kept_set p k rows r h =
    rw
      (
        keep-append (holds p k) (delete_where (holds p k) rows) (r ∷ []),
        keep-delete_where (holds p k) rows,
      )
      (ground arith)

deleted_other :
    (p k q other : Text) (rows : List MetaRow)
    → same k other ≡ false
    → keep (holds q other) (delete_where (holds p k) rows) ≡ keep (holds q other) rows
unfolding keep delete_where
deleted_other p k q other [] d = refl
deleted_other p k q other (x ∷ rows) d =
    ground (arith, deleted_other p k q other rows d, same_iff x.key k, same_iff x.key other)

missed :
    (q other k p : Text) (r : MetaRow)
    → holds p k r ≡ true
    → same k other ≡ false
    → holds q other r ≡ false
missed q other k p r h d = ground (arith, same_iff r.key k, same_iff r.key other)

++-nil : (rows : List MetaRow) → rows ++ [] ≡ rows
++-nil [] = refl
++-nil (r ∷ rows) = rw (++-nil rows)

kept_other :
    (p k q other : Text) (rows : List MetaRow) (r : MetaRow)
    → holds p k r ≡ true
    → same k other ≡ false
    → keep (holds q other) (delete_where (holds p k) rows ++ r ∷ []) ≡ keep (holds q other) rows
unfolding keep
kept_other p k q other rows r h d =
    rw
      (
        keep-append (holds q other) (delete_where (holds p k) rows) (r ∷ []),
        deleted_other p k q other rows d,
      )
      (rw (missed q other k p r h d) (++-nil (keep (holds q other) rows)))

unblank {ℓ} :
    {A : Type ℓ} (key : Text) (x : Result A) {a : A}
    → (if is_blank key then err invalid_args else x) ≡ ok a
    → (is_blank key ≡ false) × (x ≡ ok a)
unblank [] x h = cc
unblank (c ∷ cs) x h = (refl, h)

module _ (parse_dump : Text → Option Text) where
  kept_added :
      (p k : Text) (rows : List MetaRow) (r : MetaRow)
      → holds p k r ≡ true
      → map (meta_json parse_dump) (keep (holds p k) (rows ++ r ∷ []))
        ≡ map (meta_json parse_dump) (keep (holds p k) rows) ++ meta_json parse_dump r ∷ []
  unfolding keep
  kept_added p k [] r h = ground arith
  kept_added p k (x ∷ rows) r h = ground (arith, kept_added p k rows r h)

  -- What `set` leaves, where nothing throws.
  abbrev pub SetTo : Text → Text → List MetaRow → MetaJson → List MetaRow → Type 0
  SetTo p k rows j rows' =
      (r : MetaRow) × (holds p k r ≡ true)
      × (j ≡ meta_json parse_dump r)
      × (rows' ≡ delete_where (holds p k) rows ++ r ∷ [])

  inserted-SetTo :
      (p k : Text) (rows : List MetaRow) (r : MetaRow) (x : Result (List MetaRow)) (j : MetaJson)
      (rows' : List MetaRow)
      → holds p k r ≡ true
      → insert_row r (delete_where (holds p k) rows) ≡ x
      → after_insert parse_dump r (delete_where (holds p k) rows) x ≡ (ok j, rows')
      → SetTo p k rows j rows'
  inserted-SetTo p k rows r (err e) j rows' h i s = cc
  inserted-SetTo p k rows r (ok after) j rows' h i s = (
    r,
    h,
    sym (ok-injective (ap (λ x. x.0) s)),
    sym (ap (λ x. x.1) s) ∙ insert_row_lem r (delete_where (holds p k) rows) after i,
  )

  module _ (relative : Text → Text → Text) (index : Table) (new_id : Text) (now : ℕ) where
    set_rows-SetTo :
        (f g : Fault) (p k d : Text) (rows : List MetaRow) (j : MetaJson) (rows' : List MetaRow)
        → set_rows parse_dump new_id now f g p k d rows ≡ (ok j, rows')
        → SetTo p k rows j rows'
    unfolding set_rows
    set_rows-SetTo (some e) g p k d rows j rows' h = cc
    set_rows-SetTo none (some e) p k d rows j rows' h = cc
    set_rows-SetTo none none p k d rows j rows' h =
        inserted-SetTo p k rows
          (record { id = new_id; path = p; key = k; meta_data = d; mtime = now }) _ j rows'
          (ground (arith, same_refl p, same_refl k)) refl h

    get_key-ok :
        (key k : Text) (list : Bool)
        → get_key key list ≡ ok k
        → (k ≡ key) × (is_blank key ≡ false) × (is_list key ≡ list)
    unfolding get_key
    get_key-ok key k list h = (ground arith, ground arith, ground arith)

    checked-SetTo :
        (f g : Fault) (rows : List MetaRow) (x : Result (Text × Text × Text)) (j : MetaJson)
        (rows' : List MetaRow)
        → set_checked parse_dump relative index new_id now f g rows x ≡ (ok j, rows')
        → (p : Text) × (k : Text) × (d : Text) × (x ≡ ok (p, k, d)) × SetTo p k rows j rows'
    unfolding set_checked
    checked-SetTo f g rows (err e) j rows' h = cc
    checked-SetTo f g rows (ok (p, k, d)) j rows' h =
        (p, k, d, refl, set_rows-SetTo f g p k d rows j rows' h)

    set-SetTo :
        (f g : Fault) (key value path cwd : Text) (rows : List MetaRow) (j : MetaJson)
        (rows' : List MetaRow)
        → set parse_dump relative index new_id now f g key value path cwd rows ≡ (ok j, rows')
        → (p : Text) × (entry_path relative index path cwd ≡ ok p)
          × (is_blank key ≡ false)
          × (is_list key ≡ false)
          × SetTo p key rows j rows'
    unfolding set
    set-SetTo f g key value path cwd rows j rows' h =
        let (p, k, d, x, to) = checked-SetTo f g rows _ j rows' h in
        let (p1, hp, x1) = >>=-returns (entry_path relative index path cwd) _ x in
        let (k1, hk, x2) = >>=-returns (get_key key false) _ x1 in
        let (d1, hd, x3) = >>=-returns (validate_data parse_dump value) _ x2 in
        let (ek, blank, list) = get_key-ok key k1 false hk in
        let same_p = ap (λ t. t.0) (ok-injective x3) in
        let same_k = sym ek ∙ ap (λ t. t.1) (ok-injective x3) in
        (p, hp ∙ ap ok same_p, blank, list, rw same_k to)

    -- After `set` of a value, `get` of the key at the same path returns that one value, and `get` of
    -- any other key, at any path, returns what it returned before.
    pub set_then_get :
        (f g : Fault) (key value path cwd : Text) (rows : List MetaRow) (j : MetaJson)
        (rows' : List MetaRow)
        → set parse_dump relative index new_id now f g key value path cwd rows ≡ (ok j, rows')
        → (get parse_dump relative index key path cwd rows' ≡ ok (single j))
          × ((other path' cwd' : Text)
              → same key other ≡ false
              → get parse_dump relative index other path' cwd' rows'
                ≡ get parse_dump relative index other path' cwd' rows)
    unfolding get
    set_then_get f g key value path cwd rows j rows' h =
        let (p, hp, blank, list, (r, hr, hj, to)) =
          set-SetTo f g key value path cwd rows j rows' h in
        (
          rw (blank, hp, list, hj, to, kept_set p key rows r hr) refl,
          λ other path' cwd' d.
              ap
                (λ (kept : Text → List MetaRow).
                  if is_blank other
                  then err invalid_args
                  else (entry_path relative index path' cwd'
                      >>= (λ q. found_for (is_list other) (map (meta_json parse_dump) (kept q)))))
                (fun_ext (λ q. rw to (kept_other p key q other rows r hr d))),
        )

    -- `set` that is interrupted between its two statements loses the value: it throws, and `get`
    -- then finds none for the key.
    pub interrupted_set_loses_value :
        (e : Error) (key value path cwd p d : Text) (rows : List MetaRow)
        → entry_path relative index path cwd ≡ ok p
        → get_key key false ≡ ok key
        → validate_data parse_dump value ≡ ok d
        → let (r, rows') =
            set parse_dump relative index new_id now none (some e) key value path cwd rows in
          (r ≡ err e) × (get parse_dump relative index key path cwd rows' ≡ err invalid_args)
    unfolding set set_checked set_rows get
    interrupted_set_loses_value e key value path cwd p d rows hp hk hd =
        let (_, blank, _) = get_key-ok key key false hk in
        rw (hp, hk, hd) (refl, rw (blank, keep-delete_where (holds p key) rows) refl)

    -- An `add` that does not throw puts one value behind those that the plural key has.
    pub add_then_get :
        (f : Fault) (key value path cwd : Text) (rows : List MetaRow) (j : MetaJson)
        (rows' : List MetaRow)
        → add parse_dump relative index new_id now f key value path cwd rows ≡ ok (j, rows')
        → (p : Text) × (entry_path relative index path cwd ≡ ok p)
          × (get parse_dump relative index key path cwd rows'
              ≡ found_for true (map (meta_json parse_dump) (keep (holds p key) rows) ++ j ∷ []))
    unfolding add get
    add_then_get f key value path cwd rows j rows' h =
        let (p, hp, h1) = >>=-returns (entry_path relative index path cwd) _ h in
        let (k, hk, h2) = >>=-returns (get_key key true) _ h1 in
        let (d, hd, h3) = >>=-returns (validate_data parse_dump value) _ h2 in
        let (_, hf, h4) = >>=-returns (fails_with f) _ h3 in
        let (after, hi, h5) = >>=-returns (insert_row _ rows) _ h4 in
        let (ek, blank, list) = get_key-ok key k true hk in
        let r : MetaRow = record { id = new_id; path = p; key = k; meta_data = d; mtime = now } in
        let here : holds p key r ≡ true = rw (← ek) (ground (arith, same_refl p, same_refl k)) in
        (
          p,
          hp,
          rw
              (
                blank,
                hp,
                list,
                ← ap (λ t. t.1) (ok-injective h5),
                insert_row_lem r rows after hi,
                kept_added p key rows r here,
                ap (λ t. t.0) (ok-injective h5),
              )
              refl,
        )

    -- An `unset` that does not throw removes every value of the key at the path and returns
    -- how many; `get` of the key then throws.
    pub unset_then_get :
        (f : Fault) (key path cwd : Text) (rows rows' : List MetaRow) (n : ℕ)
        → unset parse_dump relative index f key path cwd rows ≡ ok (n, rows')
        → (get parse_dump relative index key path cwd rows' ≡ err invalid_args)
          × (length rows ≡ n + length rows')
    unfolding unset get
    unset_then_get f key path cwd rows rows' n h =
        let (blank, h0) = unblank key _ h in
        let (p, hp, h1) = >>=-returns (entry_path relative index path cwd) _ h0 in
        let (_, hf, h2) = >>=-returns (fails_with f) _ h1 in
        rw
          (
            blank,
            hp,
            ← ap (λ t. t.1) (ok-injective h2),
            ← ap (λ t. t.0) (ok-injective h2),
            keep-delete_where (holds p key) rows,
          )
          (refl, length-delete_where (holds p key) rows)
