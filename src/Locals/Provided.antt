-- ===== src/Locals/Provided.antt =====
-- What `computeDeltaLocals` leaves in the folder of the new files.
use drone_db.Index.Table.{Table}
