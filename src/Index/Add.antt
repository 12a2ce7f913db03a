-- ===== src/Index/Add.antt =====
-- `addToIndex` and `addToIndexEx` of library/dbops.cpp: plan, compute, commit, and again what has
-- changed in between.
-- Paths are those of `std::filesystem`: `relative_to` takes a path to the generic path below the
-- root directory, and `absolute` joins the root directory to one. `parse_entry` is `parseEntry` of
-- library/entry.cpp, which reads a file's metadata by GDAL, PDAL and Exiv2.
-- Each pass has its own views of the file system, at the computation and at the commit, and other
-- writers may change the table in between.
pub mod Plan
pub mod Commit
pub mod Passes
pub mod Counts
pub mod CommitLaws
pub mod Outcome
pub mod ComputeLaws
pub mod Completeness
pub mod Stays
mod Tests
