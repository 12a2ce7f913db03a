-- ===== src/Meta/Sift.antt =====
-- The rows that `restore` removes before it puts one of a singular key.
use drone_db.Base.{
  ℕ, suc, ◌≤◌, ◌≡◌, refl, sym, ap, ◌∙◌, ◌⊎◌, inl, inr, Bool, true, false, none, List, [], ◌∷◌, ◌++◌,
  arith, Text, same, same_refl, same_iff, any, keep, length, All, All-map, if◌then◌else◌,
  Bool-cases, Result, ok, err, undefined, ok-injective, ◌>>=◌, >>=-returns, ltb, subst,
}
use drone_db.Meta.{MetaRow, holds, has_id, is_blank, delete_where, remove}
use drone_db.Meta.Dump.{is_singular, sift}

-- how many rows a path has for a key
abbrev pub count : Text → Text → List MetaRow → ℕ
count p k rows = length (keep (holds p k) rows)

-- A path has one row at most for a singular key.
abbrev pub HasSingles : List MetaRow → Type 0
HasSingles rows = (p k : Text) → is_singular k ≡ true → count p k rows ≤ 1

pub count-delete_where :
    (p k : Text) (q : MetaRow → Bool) (rows : List MetaRow)
    → count p k (delete_where q rows) ≤ count p k rows
unfolding delete_where keep
count-delete_where p k q [] = omega arith
count-delete_where p k q (r ∷ rows) = ground (arith, count-delete_where p k q rows)

pub count_snoc :
    (p k : Text) (rows : List MetaRow) (r : MetaRow)
    → count p k (rows ++ r ∷ []) ≡ (if holds p k r then suc (count p k rows) else count p k rows)
unfolding keep
count_snoc p k [] r = ground arith
count_snoc p k (x ∷ rows) r = ground (arith, count_snoc p k rows r)

remove-ok :
    (id : Text) (rows : List MetaRow) (out : ℕ × List MetaRow)
    → remove none id rows ≡ ok out
    → out.1 ≡ delete_where (has_id id) rows
unfolding remove
remove-ok [] rows out h = cc
remove-ok (c ∷ cs) rows out h = sym (ap (λ x. x.1) (ok-injective h))

-- A row that the cursor passes is removed, or is newer.
pub SiftStep : ℕ → MetaRow → List MetaRow → List MetaRow → Bool → List MetaRow → Type 0
SiftStep mtime r snap rows newer rows' =
    (sift mtime snap (delete_where (has_id r.id) rows) ≡ ok (newer, rows'))
    ⊎ ((newer ≡ true) × (later : Bool) × (sift mtime snap rows ≡ ok (later, rows')))

branch-SiftStep :
    (mtime : ℕ) (r : MetaRow) (snap rows : List MetaRow) (b newer : Bool) (rows' : List MetaRow)
    → (if b
        then remove none r.id rows >>= (λ removed. sift mtime snap removed.1)
        else sift mtime snap rows >>= (λ sifted. ok (true, sifted.1)))
      ≡ ok (newer, rows')
    → SiftStep mtime r snap rows newer rows'
unfolding SiftStep
branch-SiftStep mtime r snap rows true newer rows' h =
    let (out, hr, hs) = >>=-returns (remove none r.id rows) _ h in
    inl (rw (← remove-ok r.id rows out hr) hs)
branch-SiftStep mtime r snap rows false newer rows' h =
    let ((later, after), hs, he) = >>=-returns (sift mtime snap rows) _ h in
    inr (
      sym (ap (λ x. x.0) (ok-injective he)),
      later,
      hs ∙ ap (λ x. ok (later, x)) (ap (λ x. x.1) (ok-injective he)),
    )

sift-SiftStep :
    (mtime : ℕ) (r : MetaRow) (snap rows : List MetaRow) (newer : Bool) (rows' : List MetaRow)
    → sift mtime (r ∷ snap) rows ≡ ok (newer, rows')
    → SiftStep mtime r snap rows newer rows'
unfolding sift
sift-SiftStep mtime r snap rows newer rows' h =
    branch-SiftStep mtime r snap rows (ltb r.mtime mtime) newer rows' h

pub count-sift :
    (p k : Text) (mtime : ℕ) (snap rows : List MetaRow) (newer : Bool) (rows' : List MetaRow)
    → sift mtime snap rows ≡ ok (newer, rows')
    → count p k rows' ≤ count p k rows
unfolding sift SiftStep
count-sift p k mtime [] rows newer rows' h = rw (ap (λ x. x.1) (ok-injective h)) (omega arith)
count-sift p k mtime (r ∷ snap) rows newer rows' h =
    elim (sift-SiftStep mtime r snap rows newer rows' h) [
      | inl s ↦
          let rest = count-sift p k mtime snap (delete_where (has_id r.id) rows) newer rows' s in
          omega (arith, rest, count-delete_where p k (has_id r.id) rows)
      | inr (_, later, s) ↦ count-sift p k mtime snap rows later rows' s
    ]

-- every row of the key has its id among `snap`
abbrev pub Covered : Text → Text → List MetaRow → List MetaRow → Type 0
Covered p k snap = All (λ x. holds p k x ≡ true → any (λ s. same s.id x.id) snap ≡ true)

Covered-delete_where :
    (p k : Text) (r : MetaRow) (snap rows : List MetaRow)
    → Covered p k (r ∷ snap) rows
    → Covered p k snap (delete_where (has_id r.id) rows)
unfolding delete_where keep any
Covered-delete_where p k r snap [] c = tt
Covered-delete_where p k r snap (x ∷ rows) c = elim (Bool-cases (has_id r.id x)) [
  | inl t ↦ rw t (Covered-delete_where p k r snap rows c.1)
  | inr f ↦ rw f (
    (λ e. ground (arith, c.0 e, same_iff r.id x.id, same_iff x.id r.id)),
    Covered-delete_where p k r snap rows c.1,
  )
]

pub count_uncovered : (p k : Text) (rows : List MetaRow) → Covered p k [] rows → count p k rows ≡ 0
unfolding keep any
count_uncovered p k [] c = refl
count_uncovered p k (x ∷ rows) c = ground (arith, count_uncovered p k rows c.1, c.0)

-- Where no row is newer, no row of the key is left.
pub sift_all :
    (p k : Text) (mtime : ℕ) (snap rows rows' : List MetaRow)
    → Covered p k snap rows
    → sift mtime snap rows ≡ ok (false, rows')
    → count p k rows' ≡ 0
unfolding sift SiftStep
sift_all p k mtime [] rows rows' c h =
    rw (← ap (λ x. x.1) (ok-injective h)) (count_uncovered p k rows c)
sift_all p k mtime (r ∷ snap) rows rows' c h =
    elim (sift-SiftStep mtime r snap rows false rows' h) [
      | inl s ↦
          sift_all p k mtime snap (delete_where (has_id r.id) rows) rows'
            (Covered-delete_where p k r snap rows c) s
      | inr (t, _, _) ↦ cc
    ]

Covered-more :
    (p k : Text) (x : MetaRow) (snap rows : List MetaRow)
    → Covered p k snap rows
    → Covered p k (x ∷ snap) rows
unfolding any
Covered-more p k x snap rows c = All-map _ _ rows (λ y h e. ground (arith, h e)) c

pub unblank_key {ℓ} :
    {A : Type ℓ} (key : Text) (x : Result A) {a : A}
    → (if is_blank key then err undefined else x) ≡ ok a
    → (is_blank key ≡ false) × (x ≡ ok a)
unblank_key [] x h = cc
unblank_key (c ∷ cs) x h = (refl, h)

kept_first :
    (q : MetaRow → Bool) (x : MetaRow) (rows : List MetaRow)
    → q x ≡ true
    → x ∷ keep q rows ≡ keep q (x ∷ rows)
unfolding keep
kept_first q x rows h = rw h refl

left_first :
    (q : MetaRow → Bool) (x : MetaRow) (rows : List MetaRow)
    → q x ≡ false
    → keep q rows ≡ keep q (x ∷ rows)
unfolding keep
left_first q x rows h = rw h refl

pub keep-Covered : (p k : Text) (rows : List MetaRow) → Covered p k (keep (holds p k) rows) rows
unfolding any
keep-Covered p k [] = tt
keep-Covered p k (x ∷ rows) = elim (Bool-cases (holds p k x)) [
  | inl t ↦
      subst (λ snap. Covered p k snap (x ∷ rows)) (kept_first (holds p k) x rows t)
        (
          (λ e. ground (arith, same_refl x.id)),
          Covered-more p k x (keep (holds p k) rows) rows (keep-Covered p k rows),
        )
  | inr f ↦
      subst (λ snap. Covered p k snap (x ∷ rows)) (left_first (holds p k) x rows f)
        ((λ e. cc), keep-Covered p k rows)
]
