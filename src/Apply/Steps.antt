-- ===== src/Apply/Steps.antt =====
-- What one step of `applyDelta` does to an entry that has changed locally.
use drone_db.Base.{
  Step, then_step, ◌≡◌, refl, sym, ap, ◌∙◌, inl, inr, Bool, true, false, ◌&&◌, ◌||◌, some, List, [],
  ◌∷◌, ◌++◌, Text, same, same_iff, any, all, any-append, arith, Bool-cases, Result, ok, err, subst,
}
use drone_db.Index.Table.{Entry}
use drone_db.Delta.{is_empty}
use drone_db.Meta.Dump.{DumpedMeta}
use drone_db.Apply.{
  MergeStrategy, dont_merge, keep_theirs, keep_ours, Conflict, Local, Decision, proceeds, reports,
  skips, refusal, decide, State, with_conflicts, decided, each,
}

-- A step, whether it throws or not, leaves the entry `row` of the path `q`.
abbrev pub Leaves : {W : Type 0} → Local W → Text → Entry → Step W → Type 0
Leaves {W} here q row f =
    (w : W) → here.get_entry w q ≡ some row → here.get_entry (f w).1 q ≡ some row

-- What the operations leave alone: `covers p q` where removing `p` from the index may remove `q`.
-- An entry that the index has is replaced by adding its own path only.
pub record Laws {W : Type 0} (here : Local W) (covers : Text → Text → Bool) : Type 0 where
  pub make_temp_leaves : (q : Text) (row : Entry) → Leaves here q row here.make_temp_folder
  pub drop_temp_leaves : (q : Text) (row : Entry) → Leaves here q row here.drop_temp_folder
  pub remove_leaves :
      (p q : Text) (row : Entry) → covers p q ≡ false → Leaves here q row (here.remove_from_index p)
  pub assure_leaves : (p q : Text) (row : Entry) → Leaves here q row (here.assure_is_removed p)
  pub directories_leave : (p q : Text) (row : Entry) → Leaves here q row (here.create_directories p)
  pub copy_leaves : (p q : Text) (row : Entry) → Leaves here q row (here.copy p)
  pub add_leaves :
      (p q : Text) (row : Entry) → same p q ≡ false → Leaves here q row (here.add_to_index p)
  pub times_leave :
      (ps : List Text) (q : Text) (row : Entry) → Leaves here q row (here.sync_local_mtimes ps)
  pub restore_leaves :
      (ms : List DumpedMeta) (q : Text) (row : Entry) → Leaves here q row (here.restore ms)
  pub bulk_leaves :
      (is : List Text) (q : Text) (row : Entry) → Leaves here q row (here.bulk_remove is)

pub any_empty : {A : Type 0} (p : A → Bool) (xs : List A) → is_empty xs ≡ true → any p xs ≡ false
unfolding any
any_empty p [] e = refl
any_empty p (x ∷ xs) e = cc

abbrev pub overwrites : MergeStrategy → Bool
overwrites keep_theirs = true
overwrites _ = false

abbrev pub reports_conflicts : MergeStrategy → Bool
reports_conflicts dont_merge = true
reports_conflicts _ = false

module _ {W : Type 0} (here : Local W) (covers : Text → Text → Bool) (laws : Laws here covers)
    (m : MergeStrategy) (q : Text) (row : Entry) where
  abbrev pub IsHere : W → Type 0
  IsHere w = here.get_entry w q ≡ some row

  abbrev pub is_reported : List Conflict → Bool
  is_reported cs = any (λ (c : Conflict). same c.path q) cs

  -- Where nothing was thrown, `b` says whether `q` is reported.
  abbrev pub Reports : Bool → Result (Unit {0}) × State W → Type 0
  Reports b (err e, s) = Unit
  Reports b (ok _, (cs, w)) = is_reported cs ≡ b

  abbrev pub Survives : Bool → Result (Unit {0}) × State W → Type 0
  Survives b (r, (cs, w)) = IsHere w × Reports b (r, (cs, w))

  pub then_step-IsHere :
      (first : Result (Unit {0}) × W) (next : Step W)
      → IsHere first.1
      → ((w : W) → IsHere w → IsHere (next w).1)
      → IsHere (then_step first next).1
  then_step-IsHere (err e, w) next h n = h
  then_step-IsHere (ok x, w) next h n = n w h

  pub then_step-Survives :
      (b c : Bool) (first : Result (Unit {0}) × State W) (next : Step (State W))
      → Survives b first
      → ((cs : List Conflict) (w : W) → IsHere w → is_reported cs ≡ b → Survives c (next (cs, w)))
      → Survives c (then_step first next)
  then_step-Survives b c (err e, (cs, w)) next h n = (h.0, tt)
  then_step-Survives b c (ok x, (cs, w)) next h n = n cs w h.0 h.1

  pub with_conflicts-Survives :
      (cs : List Conflict) (out : Result (Unit {0}) × W)
      → IsHere out.1
      → Survives (is_reported cs) (with_conflicts cs out)
  with_conflicts-Survives cs (err e, w) h = (h, tt)
  with_conflicts-Survives cs (ok x, w) h = (h, refl)

  is_reported-append :
      (cs : List Conflict) (c : Conflict)
      → is_reported (cs ++ c ∷ []) ≡ (is_reported cs || same c.path q)
  unfolding any
  is_reported-append cs c = any-append (λ (x : Conflict). same x.path q) cs (c ∷ []) ∙ ground arith

  -- An action on another path.
  other-Survives :
      (c : Conflict) (act : Step W) (cs : List Conflict) (w : W) (decision : Decision)
      → IsHere w
      → same c.path q ≡ false
      → IsHere (act w).1
      → Survives (is_reported cs) (decided c act (cs, w) decision)
  other-Survives c act cs w proceeds h e left = with_conflicts-Survives cs (act w) left
  other-Survives c act cs w reports h e left = (h, is_reported-append cs c ∙ ground (arith, e))
  other-Survives c act cs w skips h e left = (h, refl)

  -- An action on the path itself is refused.
  refused-Survives :
      (n : MergeStrategy) (c : Conflict) (act : Step W) (cs : List Conflict) (w : W)
      → overwrites n ≡ false
      → IsHere w
      → same c.path q ≡ true
      → Survives (is_reported cs || reports_conflicts n) (decided c act (cs, w) (refusal n))
  refused-Survives dont_merge c act cs w o h e =
      (h, is_reported-append cs c ∙ ap (λ b. is_reported cs || b) e)
  refused-Survives keep_ours c act cs w o h e = (h, ground arith)
  refused-Survives keep_theirs c act cs w o h e = cc

  pub decided-Survives :
      (c : Conflict) (act : Step W) (hash : Text) (cs : List Conflict) (w : W)
      → overwrites m ≡ false
      → IsHere w
      → (same c.path q ≡ true → same hash row.hash ≡ false)
      → (same c.path q ≡ false → IsHere (act w).1)
      → Survives
          (is_reported cs || (reports_conflicts m && same c.path q))
          (decided c act (cs, w) (decide m hash (here.get_entry w c.path)))
  unfolding decide
  decided-Survives c act hash cs w o h refused left = elim (Bool-cases (same c.path q)) [
    | inl t ↦
        let found : here.get_entry w c.path ≡ some row =
          subst (λ p. here.get_entry w p ≡ some row) (sym ((same_iff c.path q).0 t)) h in
        let refusing : refusal m ≡ decide m hash (here.get_entry w c.path) =
          rw (found, refused t) refl in
        subst
          (λ d.
            Survives (is_reported cs || (reports_conflicts m && same c.path q))
              (decided c act (cs, w) d))
          refusing
          (subst (λ b. Survives (is_reported cs || b) (decided c act (cs, w) (refusal m)))
            (ground (arith, t)) (refused-Survives m c act cs w o h t))
    | inr f ↦
        subst (λ b. Survives b (decided c act (cs, w) (decide m hash (here.get_entry w c.path))))
          (ground (arith, f))
          (other-Survives c act cs w (decide m hash (here.get_entry w c.path)) h f (left f))
  ]

  pub each-Survives :
      {A : Type 0} (path : A → Text) (may : A → Bool) (f : A → Step (State W)) (b : Bool)
      → ((a : A) (cs : List Conflict) (w : W)
          → may a ≡ true
          → IsHere w
          → Survives (is_reported cs || (b && same (path a) q)) (f a (cs, w)))
      → (as' : List A) (cs : List Conflict) (w : W) → all may as' ≡ true
      → IsHere w
      → Survives (is_reported cs || (b && any (λ a. same (path a) q) as')) (each f as' (cs, w))
  unfolding each all any
  each-Survives path may f b one [] cs w a h = (h, ground arith)
  each-Survives path may f b one (x ∷ xs) cs w a h =
      then_step-Survives (is_reported cs || (b && same (path x) q)) _ (f x (cs, w)) (each f xs)
        (one x cs w (ground arith) h)
        (λ cs' w' h' e.
          subst (λ y. Survives y (each f xs (cs', w'))) (rw e (ground arith))
            (each-Survives path may f b one xs cs' w' (ground arith) h'))
