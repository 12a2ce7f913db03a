-- ===== src/Index.antt =====
-- The table `entries` of the index, the file system that it is checked against, and the operations
-- of library/dbops.cpp in the modules below.
pub mod Table
pub mod Rows
pub mod EntryTypes
pub mod Check
pub mod Add
