-- ===== src/Base/Errors.antt =====
-- include/exceptions.h: an exception as a value. Messages are left out.
use mathlib.Core.Path.{◌≡◌, refl}

-- `undefined` marks a read that C++ leaves undefined.
pub data Error : Type 0 where
  app_error invalid_args fs_error db_error sql_error db_busy json_error index_error : Error
  gdal_error pdal_error other_error undefined : Error
  build_in_progress build_lock_error build_lock_permission : Error
  build_lock_disk_full build_lock_directory build_dep_missing : Error

pub data Result {ℓ} (A : Type ℓ) : Type ℓ where
  ok : A → Result A
  err : Error → Result A

pub ok-injective {ℓ} : {A : Type ℓ} {a b : A} → ok a ≡ ok b → a ≡ b
ok-injective h = cc

module _ {ℓ κ} {A : Type ℓ} {B : Type κ} where
  infixl 5 ◌>>=◌
  -- An exception leaves the rest of the block out.
  abbrev pub ◌>>=◌ : Result A → (A → Result B) → Result B
  err e >>= rest = err e
  ok a >>= rest = rest a

  pub >>=-returns :
      (first : Result A) (rest : A → Result B) {last : B}
      → first >>= rest ≡ ok last
      → (mid : A) × (first ≡ ok mid) × (rest mid ≡ ok last)
  >>=-returns (err e) rest thrown = cc
  >>=-returns (ok mid) rest returned = (mid, refl, returned)
