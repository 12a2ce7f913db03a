-- ===== src/Remove/Matches.antt =====
-- The entries that a pattern finds.
use drone_db.Base.{
  ℕ, zero, suc, ◌<◌, ◌≡◌, refl, ◌⊎◌, inl, inr, Bool, true, none, List, [], ◌∷◌, arith, Text, same,
  same_iff, any, keep, max, Bool-cases,
}
use drone_db.Index.Table.{Entry, Table, find_row}
use drone_db.Meta.{MetaRow}
use drone_db.Remove.{matching, within_depth, joined, repeated, metas_of}

abbrev pub is_among : Text → List Entry → Bool
is_among q es = any (λ (e : Entry). same e.path q) es

is_among-repeated :
    (q : Text) (n : ℕ) (e : Entry) (es : List Entry)
    → is_among q es ≡ true
    → is_among q (repeated n e es) ≡ true
unfolding any
is_among-repeated q zero e es h = h
is_among-repeated q (suc n) e es h = ground (arith, is_among-repeated q n e es h)

is_among-first :
    (q : Text) (n : ℕ) (e : Entry) (es : List Entry)
    → 0 < n
    → same e.path q ≡ true
    → is_among q (repeated n e es) ≡ true
unfolding any
is_among-first q zero e es n h = absurd (omega arith)
is_among-first q (suc m) e es n h = ground arith

module _ (like : Text → Text → Bool) where
  -- the entries that match are among the rows of the join
  pub is_among-joined :
      (q pattern : Text) (metas : List MetaRow) (t : Table)
      → like pattern q ≡ true
      → (find_row q t ≡ none)
        ⊎ (is_among q (joined metas (keep (within_depth 0) (matching like pattern t))) ≡ true)
  unfolding any keep find_row
  is_among-joined q pattern metas [] l = inl refl
  is_among-joined q pattern metas (e ∷ t) l = elim (Bool-cases (same e.path q)) [
    | inl t1 ↦
        let matched : like pattern e.path ≡ true = rw ((same_iff e.path q).0 t1) l in
        inr (rw matched (is_among-first q (max 1 (metas_of e.path metas)) e _ (omega arith) t1))
    | inr f1 ↦ elim (is_among-joined q pattern metas t l) [
      | inl gone ↦ inl (rw f1 gone)
      | inr among ↦ inr (elim (Bool-cases (like pattern e.path)) [
        | inl t2 ↦ rw t2 (is_among-repeated q (max 1 (metas_of e.path metas)) e _ among)
        | inr f2 ↦ rw f2 among
      ])
    ]
  ]
