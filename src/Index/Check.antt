-- ===== src/Index/Check.antt =====
-- `checkUpdate` of library/dbops.cpp, and the file system as the index sees it at one moment.
-- A file system answers by path; `stat` fails where a file is missing or unreadable, and hashing may
-- throw.
use drone_db.Base.{
  ℕ, Bool, not, Option, none, some, Text, same, eqb, if◌then◌else◌, Result, ok, err, fs_error,
  ◌>>=◌, ◌≡◌, refl, inl, inr, true, false, Bool-cases, if_split, subst,
}
use drone_db.Index.Table.{Entry}

pub record Files : Type 0 where
  pub exists : Text → Bool
  pub is_directory : Text → Bool
  pub mtime_of : Text → Option ℕ
  pub size_of : Text → Option ℕ
  pub sha256 : Text → Result Text

pub data FileStatus : Type 0 where
  not_indexed deleted modified not_modified : FileStatus

-- `getModifiedTime`
abbrev pub modified_time : Files → Text → Result ℕ
modified_time f p = elim (f.mtime_of p) [ none ↦ err fs_error | some t ↦ ok t ]

compare_hash : Entry → Text → Text → FileStatus × Entry
compare_hash e db_hash hash =
    (if same db_hash hash then not_modified else modified, record e { hash = hash })

compare_time : Files → Entry → Text → ℕ → Text → ℕ → Result (FileStatus × Entry)
unfolding compare_hash
compare_time f e p db_mtime db_hash t =
    if eqb t db_mtime
    then ok (not_modified, record e { mtime = t })
    else do hash ← f.sha256 p; ok (compare_hash (record e { mtime = t }) db_hash hash)

unfoldable pub check_update : Files → Entry → Text → ℕ → Text → Result (FileStatus × Entry)
unfolding compare_time
check_update f e p db_mtime db_hash =
    if not (f.exists p)
    then ok (deleted, e)
    else if f.is_directory p
    then ok (not_modified, e)
    else do t ← modified_time f p; compare_time f e p db_mtime db_hash t

-- A path that is in the index is not found to be new.
abbrev pub is_known : FileStatus → Bool
is_known not_indexed = false
is_known _ = true

abbrev IsKnown : Result (FileStatus × Entry) → Type 0
IsKnown (err e) = Unit
IsKnown (ok out) = is_known out.0 ≡ true

then-IsKnown :
    {A : Type 0} (first : Result A) (next : A → Result (FileStatus × Entry))
    → ((a : A) → IsKnown (next a))
    → IsKnown (first >>= next)
then-IsKnown (err e) next h = tt
then-IsKnown (ok a) next h = h a

compare_hash-IsKnown :
    (e : Entry) (db_hash hash : Text) → IsKnown (ok (compare_hash e db_hash hash))
unfolding compare_hash
compare_hash-IsKnown e db_hash hash = elim (Bool-cases (same db_hash hash)) [
  | inl h ↦ rw h refl
  | inr h ↦ rw h refl
]

compare_time-IsKnown :
    (f : Files) (e : Entry) (p : Text) (db_mtime : ℕ) (db_hash : Text) (t : ℕ)
    → IsKnown (compare_time f e p db_mtime db_hash t)
unfolding compare_time
compare_time-IsKnown f e p db_mtime db_hash t = if_split IsKnown (eqb t db_mtime) refl (
    then-IsKnown (f.sha256 p) (λ hash. ok (compare_hash (record e { mtime = t }) db_hash hash))
      (λ hash. compare_hash-IsKnown (record e { mtime = t }) db_hash hash))

check_update-IsKnown :
    (f : Files) (e : Entry) (p : Text) (db_mtime : ℕ) (db_hash : Text)
    → IsKnown (check_update f e p db_mtime db_hash)
unfolding check_update
check_update-IsKnown f e p db_mtime db_hash = if_split IsKnown (not (f.exists p)) refl (
    if_split IsKnown (f.is_directory p) refl (
      then-IsKnown (modified_time f p) (compare_time f e p db_mtime db_hash)
        (compare_time-IsKnown f e p db_mtime db_hash)))

pub checked_is_known :
    (f : Files) (e : Entry) (p : Text) (db_mtime : ℕ) (db_hash : Text) (out : FileStatus × Entry)
    → check_update f e p db_mtime db_hash ≡ ok out
    → is_known out.0 ≡ true
checked_is_known f e p db_mtime db_hash out h =
    subst IsKnown h (check_update-IsKnown f e p db_mtime db_hash)
