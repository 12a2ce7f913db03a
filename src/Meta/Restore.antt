-- ===== src/Meta/Restore.antt =====
-- What `restore` keeps: one row for a singular key, and all or nothing.
use drone_db.Base.{
  ℕ, suc, ◌≤◌, ◌≡◌, refl, ap, ◌∙◌, ◌⊎◌, inl, inr, Bool, true, false, none, List, [], ◌∷◌, arith,
  Text, same_iff, keep, if◌then◌else◌, Bool-cases, Error, Result, ok, err, ok-injective, ◌>>=◌,
  >>=-returns, subst,
}
use drone_db.Transaction.{Connection, Fault}
use drone_db.Transaction.Atomic.{in_transaction_atomic}
use drone_db.Meta.{MetaRow, holds, has_id, delete_where, replace_row}
use drone_db.Meta.Dump.{
  DumpedMeta, read_meta, after_sift, is_singular, sift, restore_row, restore_all, restore, as_body,
  outcome_or,
}
use drone_db.Meta.Sift.{
  count, HasSingles, count-delete_where, count_snoc, count-sift, sift_all, keep-Covered,
  unblank_key,
}

count-replace_row :
    (p k : Text) (r : MetaRow) (rows : List MetaRow)
    → count p k (replace_row r rows)
      ≤ (if holds p k r then suc (count p k rows) else count p k rows)
unfolding replace_row
count-replace_row p k r rows = ground (
  arith,
  count_snoc p k (delete_where (has_id r.id) rows) r,
  count-delete_where p k (has_id r.id) rows,
)

plural_kept :
    (p k : Text) (r : MetaRow) (rows : List MetaRow)
    → is_singular r.key ≡ false
    → is_singular k ≡ true
    → holds p k r ≡ false
plural_kept p k r rows plural single = elim (Bool-cases (holds p k r)) [
  | inl t ↦ let e : r.key ≡ k = ground (arith, same_iff r.key k) in cc
  | inr f ↦ f
]

same_place :
    (p k : Text) (r : MetaRow) (rows : List MetaRow)
    → holds p k r ≡ true
    → count r.path r.key rows ≡ count p k rows
same_place p k r rows h =
    let path_is : r.path ≡ p = ground (arith, same_iff r.path p) in
    let key_is : r.key ≡ k = ground (arith, same_iff r.key k) in rw (path_is, key_is) refl

-- What `restore_row` makes of what `sift` leaves.
sifted-HasSingles :
    (newer : Bool) (r : MetaRow) (sifted : List MetaRow) (n : ℕ) (rows rows' : List MetaRow)
    → HasSingles rows
    → sift r.mtime (keep (holds r.path r.key) rows) rows ≡ ok (newer, sifted)
    → after_sift newer r sifted ≡ (n, rows')
    → HasSingles rows'
sifted-HasSingles true r sifted n rows rows' u s h p k single =
    rw (← ap (λ x. x.1) h)
      (omega (arith, u p k single, count-sift p k r.mtime _ rows true sifted s))
sifted-HasSingles false r sifted n rows rows' u s h p k single =
    rw (← ap (λ x. x.1) h) (elim (Bool-cases (holds p k r)) [
      | inl t ↦
          let none_left =
            sift_all r.path r.key r.mtime (keep (holds r.path r.key) rows) rows sifted
              (keep-Covered r.path r.key rows) s in
          ground (arith, count-replace_row p k r sifted, same_place p k r sifted t, none_left)
      | inr f ↦ ground (
        arith,
        count-replace_row p k r sifted,
        count-sift p k r.mtime (keep (holds r.path r.key) rows) rows false sifted s,
        u p k single,
      )
    ])

singular-HasSingles :
    (b : Bool) (r : MetaRow) (n : ℕ) (rows rows' : List MetaRow)
    → is_singular r.key ≡ b
    → HasSingles rows
    → (if b
        then sift r.mtime (keep (holds r.path r.key) rows) rows
          >>= (λ sifted. ok (after_sift sifted.0 r sifted.1))
        else ok (1, replace_row r rows))
      ≡ ok (n, rows')
    → HasSingles rows'
singular-HasSingles true r n rows rows' e u h =
    let ((newer, sifted), hs, he) =
      >>=-returns (sift r.mtime (keep (holds r.path r.key) rows) rows) _ h in
    sifted-HasSingles newer r sifted n rows rows' u hs (ok-injective he)
singular-HasSingles false r n rows rows' e u h = λ p k single.
    rw (← ap (λ x. x.1) (ok-injective h))
      (ground (arith, count-replace_row p k r rows, plural_kept p k r rows e single, u p k single))

restore_row-HasSingles :
    (r : MetaRow) (n : ℕ) (rows rows' : List MetaRow)
    → HasSingles rows
    → restore_row r rows ≡ ok (n, rows')
    → HasSingles rows'
unfolding restore_row
restore_row-HasSingles r n rows rows' u h =
    let (_, h') = unblank_key r.key _ h in
    singular-HasSingles (is_singular r.key) r n rows rows' refl u h'

restore_all-HasSingles :
    (ms : List DumpedMeta) (n : ℕ) (rows rows' : List MetaRow)
    → HasSingles rows
    → restore_all ms rows ≡ ok (n, rows')
    → HasSingles rows'
unfolding restore_all
restore_all-HasSingles [] n rows rows' u h = subst HasSingles (ap (λ x. x.1) (ok-injective h)) u
restore_all-HasSingles (m ∷ ms) n rows rows' u h =
    let ((n1, rows1), h1, h2) = >>=-returns (read_meta m >>= (λ x. restore_row x rows)) _ h in
    let (r, _, hr) = >>=-returns (read_meta m) _ h1 in
    let ((n2, rows2), ha, h3) = >>=-returns (restore_all ms rows1) _ h2 in
    restore_all-HasSingles ms n2 rows1 rows' (restore_row-HasSingles r n1 rows rows1 u hr)
      (ha ∙ ap (λ x. ok (n2, x)) (ap (λ x. x.1) (ok-injective h3)))

body_ok :
    (f : List MetaRow → Result (ℕ × List MetaRow)) (rows : List MetaRow)
    (x : Result (ℕ × List MetaRow)) (n : ℕ) (rows' : List MetaRow)
    → f rows ≡ x
    → outcome_or rows x ≡ (ok n, rows')
    → f rows ≡ ok (n, rows')
body_ok f rows (err e) n rows' e1 h = cc
body_ok f rows (ok (m, after)) n rows' e1 h =
    e1
    ∙ ap (λ x. ok (x, after)) (ok-injective (ap (λ x. x.0) h))
    ∙ ap (λ x. ok (n, x)) (ap (λ x. x.1) h)

-- Outside a transaction, a restore ends outside one. It either returns, and then the table is what
-- its loop over the objects makes of the former one, and a path still has one row at most for each
-- singular key, or it throws and leaves the table as it was.
pub restore_keeps_singles :
    (begin_fault commit_fault : Fault) (ms : List DumpedMeta) (c : Connection (List MetaRow))
    → c.working ≡ none
    → HasSingles c.committed
    → let (r, c') = restore begin_fault commit_fault ms c in
      (c'.working ≡ none)
      × (((n : ℕ) × (r ≡ ok n)
            × (restore_all ms c.committed ≡ ok (n, c'.committed))
            × HasSingles c'.committed)
          ⊎ ((e : Error) × (r ≡ err e) × (c'.committed ≡ c.committed)))
unfolding restore
restore_keeps_singles begin_fault commit_fault ms c w u =
    let (w', either) =
      in_transaction_atomic begin_fault commit_fault (as_body (restore_all ms)) c w in
    (
      w',
      elim either [
        | inl (n, out, done) ↦
            let all = body_ok (restore_all ms) c.committed _ n _ refl done in
            inl (n, out, all, restore_all-HasSingles ms n c.committed _ u all)
        | inr failed ↦ inr failed
      ],
    )
