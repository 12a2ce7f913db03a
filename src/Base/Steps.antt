-- ===== src/Base/Steps.antt =====
-- Steps that change a state and may throw; what was changed before stays.
use drone_db.Base.Errors.{Result, ok, err}

abbrev pub Step : Type 0 → Type 0
Step W = W → Result (Unit {0}) × W

abbrev pub then_step : {W : Type 0} → Result (Unit {0}) × W → Step W → Result (Unit {0}) × W
then_step (err e, w) next = (err e, w)
then_step (ok _, w) next = next w
