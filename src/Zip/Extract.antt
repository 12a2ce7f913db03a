-- ===== src/Zip/Extract.antt =====
-- What an extraction writes to.
use drone_db.Base.{
  ◌≡◌, refl, ◌∙◌, inl, inr, Bool, true, false, Bool-cases, if_split, Option, none, some, List, [],
  ◌∷◌, Text, last?, if◌then◌else◌, Result, ok, err, app_error, then_step,
}
use drone_db.Mio.{Tree, create_directories, assure_folder_exists}
use drone_db.Build.Output.{below}
use drone_db.Build.Failure.{Unseen, then_step-unseen}
use drone_db.Zip.{
  ZipEntry, ensure_safe_zip_entry, is_folder_name, opened, extract_named, extract_valid,
  extract_entry, extract_entries, extract_all,
}
use drone_db.Zip.Inside.{IsInside, target, accepted_names-IsInside}

module _ {T S : Type 0} (tree : Tree T) (open_file : Text → T → Bool × T)
    (write_file : Text → ZipEntry → T → T) (parent_path : Text → Text) (escapes : Text → Bool)
    (outdir : Text) (folder : List Text) (seen : T → S) where
  -- `folder` has the names of `outdir`. What is written to a path that leads into it is not seen.
  pub record Contained : Type 0 where
    pub creation_unseen : Unseen seen (create_directories tree outdir)
    pub folder_unseen :
        (name : Text)
        → IsInside folder (target folder name)
        → Unseen seen (assure_folder_exists tree (below outdir name))
    pub parent_unseen :
        (name : Text)
        → IsInside folder (target folder name)
        → Unseen seen (assure_folder_exists tree (parent_path (below outdir name)))
    pub opening_unseen :
        (name : Text) (t : T)
        → IsInside folder (target folder name)
        → seen (open_file (below outdir name) t).1 ≡ seen t
    pub writing_unseen :
        (name : Text) (e : ZipEntry) (t : T)
        → IsInside folder (target folder name)
        → seen (write_file (below outdir name) e t) ≡ seen t

  module _ (contained : Contained) where
    opened-unseen :
        (name : Text) (e : ZipEntry) (s : S) (out : Bool × T)
        → IsInside folder (target folder name)
        → seen out.1 ≡ s
        → seen
            (opened tree open_file write_file parent_path escapes outdir
              (below outdir name)
              e
              out).1
          ≡ s
    opened-unseen name e s (true, t) i h = h
    opened-unseen name e s (false, t) i h =
        if_split (λ (out : Result (Unit {0}) × T). seen out.1 ≡ s) e.cannot_open h
          (contained.writing_unseen name e t i ∙ h)

    named-unseen :
        (name : Text) (e : ZipEntry) (s : S) (t : T)
        → IsInside folder (target folder name)
        → seen t ≡ s
        → seen (extract_named tree open_file write_file parent_path escapes outdir e name t).1 ≡ s
    named-unseen name e s t i h = elim (Bool-cases (is_folder_name (last? name))) [
      | inl c ↦ rw c (contained.folder_unseen name i t ∙ h)
      | inr c ↦ rw c (
          then_step-unseen seen s (assure_folder_exists tree (parent_path (below outdir name)) t)
            (λ t'.
              opened tree open_file write_file parent_path escapes outdir (below outdir name) e
                (open_file (below outdir name) t'))
            (contained.parent_unseen name i t ∙ h)
            (λ t' h'.
              opened-unseen name e s (open_file (below outdir name) t') i
                (contained.opening_unseen name t' i ∙ h')))
    ]

    checked-unseen :
        (name : Text) (e : ZipEntry) (s : S) (t : T) (check : Result (Unit {0}))
        → (check ≡ ok tt → IsInside folder (target folder name))
        → seen t ≡ s
        → seen
            (then_step
              (check, t)
              (extract_named tree open_file write_file parent_path escapes outdir e name)).1
          ≡ s
    checked-unseen name e s t (err x) i h = h
    checked-unseen name e s t (ok tt) i h = named-unseen name e s t (i refl) h

    valid-unseen :
        (e : ZipEntry) (name : Option Text) (s : S) (t : T)
        → seen t ≡ s
        → seen (extract_valid tree open_file write_file parent_path escapes outdir e name t).1 ≡ s
    valid-unseen e none s t h = h
    valid-unseen e (some name) s t h =
        checked-unseen name e s t (ensure_safe_zip_entry escapes name)
          (accepted_names-IsInside escapes folder name) h

    entries-unseen :
        (es : List ZipEntry) (s : S) (t : T)
        → seen t ≡ s
        → seen (extract_entries tree open_file write_file parent_path escapes outdir es t).1 ≡ s
    unfolding extract_entry
    entries-unseen [] s t h = h
    entries-unseen (e ∷ es) s t h =
        then_step-unseen seen s
          (extract_entry tree open_file write_file parent_path escapes outdir e t)
          (extract_entries tree open_file write_file parent_path escapes outdir es)
          (if_split (λ (out : Result (Unit {0}) × T). seen out.1 ≡ s) e.stat_fails h
            (valid-unseen e e.name s t h))
          (λ t' h'. entries-unseen es s t' h')

    -- An extraction, of any archive, whether it ends in an exception or not, leaves what is seen of the
    -- tree, where that is not changed by what is written to a path that leads into the output folder.
    pub extraction_stays_inside :
        (close_fails : Bool) (es : List ZipEntry) (t : T)
        → seen (extract_all tree open_file write_file parent_path escapes outdir close_fails es t).1
          ≡ seen t
    unfolding extract_all
    extraction_stays_inside close_fails es t =
        then_step-unseen seen (seen t) (create_directories tree outdir t)
          (λ t1.
            then_step (extract_entries tree open_file write_file parent_path escapes outdir es t1)
              (λ t2. (if close_fails then err app_error else ok tt, t2)))
          (contained.creation_unseen t)
          (λ t1 h1.
            then_step-unseen seen (seen t)
              (extract_entries tree open_file write_file parent_path escapes outdir es t1)
              (λ t2. (if close_fails then err app_error else ok tt, t2))
              (entries-unseen es (seen t) t1 h1) (λ t2 h2. h2))
