-- ===== src/Locals/Placed.antt =====
-- What a file that is copied or linked into the folder of the new files leaves of the rest.
use drone_db.Base.{
  ◌≡◌, refl, ◌∙◌, Bool, true, false, some, List, [], ◌∷◌, ◌++◌, Text, same, if_split, Result, ok,
  err, Step, then_step,
}
use drone_db.Index.Table.{Entry, Table}
use drone_db.Delta.{AddAction}
use drone_db.Meta.{is_blank}
use drone_db.Mio.{Tree, create_directories, throws_if_failed}
use drone_db.Remove.{starts_with}
use drone_db.Build.Output.{below}
use drone_db.Locals.{is_added, or_copied, hardlink_safe, placed}

module _ {T : Type 0} (tree : Tree T) (sha256 : T → Text → Result Text) (destination : Text) where
  -- Neither in the folder of the new files, nor that folder, nor a folder that it is in.
  abbrev pub IsApart : Text → Type 0
  IsApart r =
      (starts_with (destination ++ b'/' ∷ []) (r ++ b'/' ∷ []) ≡ false)
      × (starts_with (r ++ b'/' ∷ []) (destination ++ b'/' ∷ []) ≡ false)

  -- The time and the content of the path are the same.
  abbrev pub IsSame : Text → T → T → Type 0
  IsSame r t t' = (tree.mtime_of t' r ≡ tree.mtime_of t r) × (sha256 t' r ≡ sha256 t r)

  -- The file is there, with that content.
  abbrev pub HasContent : Result Text → Text → T → Type 0
  HasContent content p t = (tree.exists t p ≡ true) × (sha256 t p ≡ content)

  -- What a file system does to write a file of the folder of the new files: where it does not fail the
  -- file is there, with the content of one apart from that folder; and the other files stay as they are.
  pub record Writes (target : Text) (write : Text → T → Bool × T) : Type 0 where
    pub puts :
        (path : Text) (t : T)
        → IsApart target
        → (write (below destination path) t).0 ≡ false
        → HasContent (sha256 t target) (below destination path) (write (below destination path) t).1
    pub keeps :
        (q r : Text) (content : Result Text) (t : T)
        → same q r ≡ false
        → HasContent content r t
        → HasContent content r (write q t).1
    pub leaves :
        (path r : Text) (t : T) → IsApart r → IsSame r t (write (below destination path) t).1

  -- Of the file system alone: copies and links write a file, and a removal and new folders leave the
  -- other files as they are.
  pub record FileLaws (hardlink copy_file : Text → Text → T → Bool × T)
      (remove : Text → T → Bool × T) (parent_path : Text → Text) : Type 0 where
    pub links : (target : Text) → Writes target (hardlink target)
    pub copies : (target : Text) → Writes target (copy_file target)
    pub remove_keeps :
        (q r : Text) (content : Result Text) (t : T)
        → same q r ≡ false
        → HasContent content r t
        → HasContent content r (remove q t).1
    pub remove_leaves :
        (path r : Text) (t : T) → IsApart r → IsSame r t (remove (below destination path) t).1
    pub folders_keep :
        (q r : Text) (content : Result Text) (t : T)
        → HasContent content r t
        → HasContent content r (tree.create_directories q t).1
    pub folders_leave :
        (path r : Text) (t : T)
        → IsApart r
        → IsSame r t (tree.create_directories (parent_path (below destination path)) t).1

  -- A change of at most the file of the path, that leaves what is apart.
  pub record Passes (path : Text) (t t' : T) : Type 0 where
    pub others :
        (r : Text) (content : Result Text)
        → same (below destination path) r ≡ false
        → HasContent content r t
        → HasContent content r t'
    pub apart : (r : Text) → IsApart r → IsSame r t t'

  Passes-not : (path : Text) (t : T) → Passes path t t
  Passes-not path t = record { others = λ r x d h. h; apart = λ r a. (refl, refl) }

  Passes-twice :
      (path : Text) (t t1 t2 : T) → Passes path t t1 → Passes path t1 t2 → Passes path t t2
  Passes-twice path t t1 t2 p q = record {
    others = λ r x d h. q.others r x d (p.others r x d h);
    apart = λ r a. ((q.apart r a).0 ∙ (p.apart r a).0, (q.apart r a).1 ∙ (p.apart r a).1);
  }

  -- The file is there with that content where nothing was thrown.
  abbrev pub IsPut : Result Text → Text → T → Result (Unit {0}) × T → Type 0
  IsPut content path t (r, t') =
      (r ≡ ok tt → HasContent content (below destination path) t') × Passes path t t'

  module _ (content : Result Text) (path : Text) (t : T) where
    IsPut-later :
        (t1 : T) (out : Result (Unit {0}) × T)
        → Passes path t t1
        → IsPut content path t1 out
        → IsPut content path t out
    IsPut-later t1 (r, t2) p (there, q) = (there, Passes-twice path t t1 t2 p q)

    then-IsPut :
        (out : Result (Unit {0}) × T) (next : Step T)
        → Passes path t out.1
        → ((t1 : T) → Passes path t t1 → IsPut content path t1 (next t1))
        → IsPut content path t (then_step out next)
    then-IsPut (err e, t1) next p h = (λ k. cc, p)
    then-IsPut (ok _, t1) next p h = IsPut-later t1 (next t1) p (h t1 p)

    thrown-IsPut :
        (out : Bool × T)
        → (out.0 ≡ false → HasContent content (below destination path) out.1)
        → Passes path t out.1
        → IsPut content path t (throws_if_failed tree out)
    thrown-IsPut (true, t1) there p = (λ k. cc, p)
    thrown-IsPut (false, t1) there p = (λ k. there refl, p)

  write-Passes :
      (target : Text) (write : Text → T → Bool × T) (w : Writes target write) (path : Text) (t : T)
      → Passes path t (write (below destination path) t).1
  write-Passes target write w path t = record {
    others = λ r x d h. w.keeps (below destination path) r x t d h;
    apart = λ r a. w.leaves path r t a;
  }

  write-puts :
      (target : Text) (write : Text → T → Bool × T) (w : Writes target write) (path : Text) (t : T)
      (content : Result Text)
      → IsApart target
      → sha256 t target ≡ content
      → (write (below destination path) t).0 ≡ false
      → HasContent content (below destination path) (write (below destination path) t).1
  write-puts target write w path t content a e h =
      let (there, is_same) = w.puts path t a h in (there, is_same ∙ e)

  write-IsPut :
      (target : Text) (write : Text → T → Bool × T) (w : Writes target write) (path : Text) (t : T)
      (content : Result Text)
      → IsApart target
      → sha256 t target ≡ content
      → IsPut content path t (throws_if_failed tree (write (below destination path) t))
  write-IsPut target write w path t content a e =
      thrown-IsPut content path t _ (write-puts target write w path t content a e)
        (write-Passes target write w path t)

module _ {T : Type 0} (tree : Tree T) (hardlink copy_file : Text → Text → T → Bool × T)
    (remove : Text → T → Bool × T) (sha256 : T → Text → Result Text) (parent_path : Text → Text)
    (root destination : Text) (table : Table)
    (laws : FileLaws tree sha256 destination hardlink copy_file remove parent_path) where
  module _ (target : Text) (content : Result Text) (path : Text)
      (apart : IsApart tree sha256 destination target) where
    or_copied-IsPut :
        (t : T) (out : Bool × T)
        → sha256 t target ≡ content
        → (out.0 ≡ false
            → HasContent tree sha256 destination content (below destination path) out.1)
        → Passes tree sha256 destination path t out.1
        → IsPut tree sha256 destination content path t (
            or_copied tree hardlink copy_file remove sha256 parent_path root destination table
              target
              (below destination path)
              (throws_if_failed tree out))
    or_copied-IsPut t (false, t1) e there p = (λ k. there refl, p)
    or_copied-IsPut t (true, t1) e there p =
        IsPut-later tree sha256 destination content path t t1 _ p (
          write-IsPut tree sha256 destination target (copy_file target) (laws.copies target) path t1
            content apart ((p.apart target apart).1 ∙ e))

    hardlink_safe-IsPut :
        (t : T)
        → sha256 t target ≡ content
        → IsPut tree sha256 destination content path t (
            hardlink_safe tree hardlink copy_file remove sha256 parent_path root destination table
              target
              (below destination path)
              t)
    unfolding hardlink_safe
    hardlink_safe-IsPut t e =
        then-IsPut tree sha256 destination content path t _ _
          (if_split (λ (out : Result (Unit {0}) × T). Passes tree sha256 destination path t out.1)
            (tree.exists t (below destination path))
            (record {
              others = λ r x d h. laws.remove_keeps (below destination path) r x t d h;
              apart = λ r a. laws.remove_leaves path r t a;
            })
            (Passes-not tree sha256 destination path t))
          (λ t1 p.
            let e1 : sha256 t1 target ≡ content = (p.apart target apart).1 ∙ e in
            or_copied-IsPut t1 _ e1
              (write-puts tree sha256 destination target (hardlink target) (laws.links target) path
                t1 content apart e1)
              (write-Passes tree sha256 destination target (hardlink target) (laws.links target)
                path t1))

  pub placed-IsPut :
      (adds : List AddAction) (a : AddAction) (e : Entry) (t : T)
      → is_blank destination ≡ false
      → IsApart tree sha256 destination (below root e.path)
      → IsPut tree sha256 destination (sha256 t (below root e.path)) a.path t (
          placed tree hardlink copy_file remove sha256 parent_path root destination table adds a
            (some e)
            t)
  unfolding create_directories
  placed-IsPut adds a e t named apart =
      let target = below root e.path in
      rw named (
        then-IsPut tree sha256 destination (sha256 t target) a.path t _ _
          (record {
            others = λ r x d h. laws.folders_keep (parent_path (below destination a.path)) r x t h;
            apart = λ r p. laws.folders_leave a.path r t p;
          })
          (λ t1 p.
            if_split (IsPut tree sha256 destination (sha256 t target) a.path t1)
              (is_added adds e.path)
              (write-IsPut tree sha256 destination target (copy_file target) (laws.copies target)
                a.path t1 (sha256 t target) apart (p.apart target apart).1)
              (hardlink_safe-IsPut target (sha256 t target) a.path apart t1
                (p.apart target apart).1)))
