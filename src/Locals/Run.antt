-- ===== src/Locals/Run.antt =====
-- What a run over the adds leaves, one add after the other.
use drone_db.Base.{
  Option, none, some, ◌≡◌, refl, sym, ap, ◌∙◌, inl, inr, Bool, true, false, Bool-cases, List, [],
  ◌∷◌, Text, same, same_iff, any, All, All-map, subst, arith, Result, ok, err, ok-injective, Step,
}
use drone_db.Index.Table.{Entry, Table}
use drone_db.Delta.{AddAction}
use drone_db.Meta.{is_blank}
use drone_db.Mio.{Tree}
use drone_db.Build.Output.{below}
use drone_db.Locals.{
  row_of_hash, is_valid, place, with_hash, after_place, after_check, locals_of, is_local,
}
use drone_db.Locals.Placed.{HasContent, FileLaws}
use drone_db.Locals.Kept.{
  HasApart, HasCopy, AreDistinct, place-HasCopy, place-keeps, place-before, place-leaves_index,
}

module _ {T : Type 0} (tree : Tree T) (hardlink copy_file : Text → Text → T → Bool × T)
    (remove : Text → T → Bool × T) (sha256 : T → Text → Result Text) (parent_path : Text → Text)
    (root destination : Text) (table : Table) where
  abbrev valid : T → Text → Result Bool
  valid = is_valid tree hardlink copy_file remove sha256 parent_path root destination table

  abbrev placing : List AddAction → AddAction → Step T
  placing = place tree hardlink copy_file remove sha256 parent_path root destination table

  abbrev run : List AddAction → List AddAction → T → Result (List Text) × T
  run = locals_of tree hardlink copy_file remove sha256 parent_path root destination table

  abbrev pub IsApartEntry : Entry → Type 0
  IsApartEntry = HasApart tree hardlink copy_file remove sha256 parent_path root destination table

  abbrev HasCopyOf : Text → T → Text → T → Type 0
  HasCopyOf hash =
      HasCopy tree hardlink copy_file remove sha256 parent_path root destination table
        (row_of_hash hash table)

  abbrev pub HasHere : Result Text → Text → T → Type 0
  HasHere content p = HasContent tree sha256 destination content (below destination p)

  module _ (laws : FileLaws tree sha256 destination hardlink copy_file remove parent_path)
      (named : is_blank destination ≡ false) (index : All IsApartEntry table)
      (adds : List AddAction) where
    -- What a run that returns has: its hashes are valid, what was there at another path is as it was,
    -- and each add of a valid hash has the content of that hash's row.
    pub record Ran (t : T) (as' : List AddAction) (hashes : List Text) (t' : T) : Type 0 where
      pub valid_hashes : (h : Text) → is_local hashes h ≡ true → valid t h ≡ ok true
      kept :
          (p : Text) (content : Result Text)
          → All (λ (b : AddAction). same b.path p ≡ false) as'
          → HasHere content p t
          → HasHere content p t'
      pub provided :
          All
            (λ (a : AddAction).
              is_blank a.hash ≡ false
              → valid t a.hash ≡ ok true
              → HasCopyOf a.hash t (below destination a.path) t')
            as'

    kept-HasCopy :
        (row : Option Entry) (p : Text) (t t1 t' : T)
        → ((content : Result Text) → HasHere content p t1 → HasHere content p t')
        → HasCopy tree hardlink copy_file remove sha256 parent_path root destination table row t
            (below destination p)
            t1
        → HasCopy tree hardlink copy_file remove sha256 parent_path root destination table row t
            (below destination p)
            t'
    kept-HasCopy none p t t1 t' k h = h
    kept-HasCopy (some e) p t t1 t' k h = k (sha256 t (below root e.path)) h

    with_hash-ok :
        (hash : Text) (out : Result (List Text) × T) (hashes : List Text) (t' : T)
        → with_hash tree hardlink copy_file remove sha256 parent_path root destination table hash
            out
          ≡ (ok hashes, t')
        → (rest : List Text) × (out ≡ (ok rest, t')) × (hashes ≡ hash ∷ rest)
    with_hash-ok hash (err e, t) hashes t' h = cc
    with_hash-ok hash (ok rest, t) hashes t' h = (
      rest,
      λ i. (ok rest, (h i).1),
      sym (ok-injective (ap (λ (x : Result (List Text) × T). x.0) h)),
    )

    Ran-place :
        (a : AddAction) (as' : List AddAction) (t t1 t' : T) (rest : List Text)
        → valid t a.hash ≡ ok true
        → placing adds a t ≡ (ok tt, t1)
        → All (λ (b : AddAction). same b.path a.path ≡ false) as'
        → Ran t1 as' rest t'
        → Ran t (a ∷ as') (a.hash ∷ rest) t'
    unfolding any
    Ran-place a as' t t1 t' rest v p apart r =
        let returned : (placing adds a t).0 ≡ ok tt = ap (λ (x : Result (Unit {0}) × T). x.0) p in
        let next : (placing adds a t).1 ≡ t1 = ap (λ (x : Result (Unit {0}) × T). x.1) p in
        let same_valid : (h : Text) → valid t1 h ≡ valid t h = λ h.
          subst (λ x. valid x h ≡ valid t h) next
            (place-leaves_index tree hardlink copy_file remove sha256 parent_path root destination
              table laws named index adds a t h v) in
        let copied : HasCopyOf a.hash t (below destination a.path) t1 =
          subst (λ x. HasCopyOf a.hash t (below destination a.path) x) next
            ((place-HasCopy tree hardlink copy_file remove sha256 parent_path root destination table
                laws named index adds a t v).0
              returned) in
        let before : (h q : Text) → HasCopyOf h t1 q t' → HasCopyOf h t q t' = λ h q c.
          place-before tree hardlink copy_file remove sha256 parent_path root destination table laws
            named index adds a h q t t' v (subst (λ x. HasCopyOf h x q t') (sym next) c) in
        record {
          valid_hashes = λ h k. elim (Bool-cases (same a.hash h)) [
            | inl e ↦ subst (λ x. valid t x ≡ ok true) ((same_iff a.hash h).0 e) v
            | inr e ↦ sym (same_valid h) ∙ r.valid_hashes h (ground arith)
          ];
          kept = λ q content d k. r.kept q content d.1 (
              subst (λ x. HasHere content q x) next
                (place-keeps tree hardlink copy_file remove sha256 parent_path root destination
                  table laws named index adds a q content t v d.0 k));
          provided = (
            λ blank w.
                kept-HasCopy (row_of_hash a.hash table) a.path t t1 t'
                  (λ content k. r.kept a.path content apart k) copied,
            All-map _ _ as'
                (λ b k blank w.
                  before b.hash (below destination b.path) (k blank (same_valid b.hash ∙ w)))
                r.provided,
          );
        }

    module _ (a : AddAction) (as' : List AddAction) (t t' : T) (hashes : List Text)
        (apart : All (λ (b : AddAction). same b.path a.path ≡ false) as')
        (next : (t1 : T) (rest : List Text)
          → run adds as' t1 ≡ (ok rest, t')
          → Ran t1 as' rest t') where
      after_place-Ran :
          (out : Result (Unit {0}) × T)
          → valid t a.hash ≡ ok true
          → placing adds a t ≡ out
          → after_place tree hardlink copy_file remove sha256 parent_path root destination table
              a.hash out
              (run adds as')
            ≡ (ok hashes, t')
          → Ran t (a ∷ as') hashes t'
      after_place-Ran (err e, t1) v p h = cc
      after_place-Ran (ok tt, t1) v p h =
          let (rest, ran, all_hashes) = with_hash-ok a.hash (run adds as' t1) hashes t' h in
          subst (λ x. Ran t (a ∷ as') x t') (sym all_hashes)
            (Ran-place a as' t t1 t' rest v p apart (next t1 rest ran))

      after_check-Ran :
          (c : Result Bool)
          → valid t a.hash ≡ c
          → after_check tree hardlink copy_file remove sha256 parent_path root destination table
              adds a c t
              (run adds as')
            ≡ (ok hashes, t')
          → Ran t (a ∷ as') hashes t'
      after_check-Ran (err e) v h = cc
      after_check-Ran (ok false) v h =
          let r = next t hashes h in
          record {
            valid_hashes = r.valid_hashes;
            kept = λ p content d k. r.kept p content d.1 k;
            provided = (λ blank w. cc, r.provided);
          }
      after_check-Ran (ok true) v h = after_place-Ran (placing adds a t) v refl h

    blank-Ran :
        (a : AddAction) (as' : List AddAction) (t t' : T) (hashes : List Text)
        → is_blank a.hash ≡ true
        → Ran t as' hashes t'
        → Ran t (a ∷ as') hashes t'
    blank-Ran a as' t t' hashes e r = record {
      valid_hashes = r.valid_hashes;
      kept = λ p content d k. r.kept p content d.1 k;
      provided = (λ blank w. cc, r.provided);
    }

    run_blank :
        (a : AddAction) (as' : List AddAction) (t : T)
        → is_blank a.hash ≡ true
        → run adds (a ∷ as') t ≡ run adds as' t
    run_blank a as' t e = rw e refl

    run_hash :
        (a : AddAction) (as' : List AddAction) (t : T)
        → is_blank a.hash ≡ false
        → run adds (a ∷ as') t
          ≡ after_check tree hardlink copy_file remove sha256 parent_path root destination table
              adds a
              (valid t a.hash)
              t
              (run adds as')
    run_hash a as' t e = rw e refl

    pub run-Ran :
        (as' : List AddAction) (t t' : T) (hashes : List Text)
        → AreDistinct as'
        → run adds as' t ≡ (ok hashes, t')
        → Ran t as' hashes t'
    unfolding any
    run-Ran [] t t' hashes distinct h = record {
      valid_hashes = λ k l.
          let nothing : [] ≡ hashes = ok-injective (ap (λ (x : Result (List Text) × T). x.0) h) in
          let found : is_local [] k ≡ true = subst (λ x. is_local x k ≡ true) (sym nothing) l in cc;
      kept = λ p content d k. subst (λ (x : Result (List Text) × T). HasHere content p x.1) h k;
      provided = tt;
    }
    run-Ran (a ∷ as') t t' hashes distinct h =
        let next = λ (t1 : T) (rest : List Text) (e : run adds as' t1 ≡ (ok rest, t')).
          run-Ran as' t1 t' rest distinct.1 e in
        elim (Bool-cases (is_blank a.hash)) [
          | inl e ↦
              blank-Ran a as' t t' hashes e
                (run-Ran as' t t' hashes distinct.1 (sym (run_blank a as' t e) ∙ h))
          | inr e ↦
              after_check-Ran a as' t t' hashes distinct.0 next (valid t a.hash) refl
                (sym (run_hash a as' t e) ∙ h)
        ]
