-- ===== src/Lib.antt =====
-- The DroneDB library: its index of files and the parts that keep it consistent.
--
-- A directory with a `.ddb` folder is indexed by an SQLite database. Its parts, and the files that
-- model them:
--
--   Base         names and lemmas that the parts share: Boolean tests, bytes, lists, exceptions as
--                values (`Result`, with the classes of src/include/exceptions.h), std::sort.
--   Transaction  src/library/transaction.cpp. A connection is its committed state and, between BEGIN
--                and the end, a working one. `construct`, `commit`, `rollback`, `destroy` and
--                `move_construct` are the members; `in_transaction` is a block that holds one.
--   Retry        src/library/retrypolicy.cpp, src/include/retrypolicy.h. `run` has the operation, the
--                clock and the random draw as arguments. Its fuel counts attempts, and one attempt more
--                than the clock needs to reach the deadline is enough.
--   BuildLock    src/library/buildlock.cpp, for Unix. `Kernel` is the store of links, inodes, open
--                descriptors and lock owners, with POSIX's rules for open, fcntl, unlink and close;
--                `Faults` says which system call fails. `acquire_lock`, `cleanup`, `release`,
--                `move_construct`, `move_assign` are the members. BuildLock.System has several
--                processes that take the lock, one system call at a time, in any order, and that may
--                die. writeLockInfo and the Windows branch are left out.
--   Delta        src/library/delta.cpp, src/include/delta.h, src/include/simpleentry.h: `get_delta`,
--                its JSON and its report. JSON objects are records, by their keys.
--   Index        src/library/dbops.cpp, src/library/entry_types.cpp, src/include/entry.h. Table has
--                rows and statements, Check `checkUpdate`. Add is `addToIndex` and `addToIndexEx`:
--                Plan has `planAddCandidates` and `computeAddEntries`, Commit `commitAddEntries`,
--                Passes the loop that plans again what has changed meanwhile. The commit runs in a
--                transaction; what other processes write between the phases is an argument of each
--                pass, as is what the file system answers.
--   Move         src/library/dbops.cpp: `moveEntry` with `deleteEntry`, `replacePath`,
--                `listFolderPaths`, `createMissingFolders` and `addFolder`, over the tables of entries
--                and of metadata. SQLite's LIKE and the rows of FOLDER_CONSISTENCY_QUERY are arguments.
--   Remove       src/library/dbops.cpp: `removeFromIndex` with `deleteFromIndex`, `getMatchingEntries`
--                and `sanitize_query_param`. A call of `deleteFromIndex` is one transaction; the build
--                folders that it removes afterwards are a set of hashes. LIKE is an argument.
--   Sync         src/library/dbops.cpp: `syncIndex`, which compares every row with its file, and
--                `rescanIndex`, which reads the files again and asks its callback whether to go on.
--   Apply        src/library/registry.cpp: `applyDelta`, which makes the changes of a remote index to the
--                local one. It runs on a record of the operations it calls. Here fills the record with
--                the operations of Remove, Index.Add, Meta and Mio. The paths that `getIndexPathList`
--                makes of an argument are a parameter.
--   Locals       src/library/registry.cpp: `computeDeltaLocals`, which finds among the local files those that
--                a pull need not download, and links or copies them.
--   Mio          src/library/mio.cpp: functions that wrap std::filesystem, over a record of what that
--                does on a tree of files. A removal that fails is tried 4 times.
--   Build        src/library/build.cpp, for Unix. Build itself says which entries are built and for
--                which target, Output when an output is complete. Internal is `buildInternal`: the tools
--                and the process lock are arguments, and a state of any type is passed on. Pending has
--                the pending files, Runs `build`, `buildAll`, `buildPending`, the queries and
--                `isBuildActive`. Cleanup is `cleanupBuild`, with the build directory as a list. Where
--                one of these takes an output path, the model has the build directory.
--   ThreadLock   src/library/threadlock.cpp: the steps of several threads, in any order. The maps
--                are not guarded, so that each search, insertion, write and erasure is a step of its own;
--                only `operator[]` and the write through it are one step. A mutex is a number.
--   SyncManager  src/library/syncmanager.cpp. Its fuel counts the calls of `getLastStamp` by itself; two
--                are enough where the file can be written.
--   Walk         src/library/dbops.cpp and src/library/mio.cpp: `getIndexPathList` with `isParentOf` and
--                `hasChildren`. A path is the list of its names, the innermost first; a folder is a
--                `Forest`. Expand has `getPathList`, `expandPathList`, and `statusIndex` of
--                src/library/status.cpp.
--   Zip          src/library/mzip.cpp: `ensureSafeZipEntry` and `_extractAll`. The archive is a list of what
--                the zip library answers for each entry; `zipFolder` is left out.
--   AuthManager  src/library/authmanager.cpp: the credentials in memory and in their file. base64 is an
--                argument.
--   PasswordManager
--                src/library/passwordmanager.cpp, over the rows of its table and the transactions of
--                Transaction. SHA-256 and the salt are arguments.
--   Tag          src/library/registryutils.cpp: `parseTag`, `fullTag` and `tag`, with `trim` and `toLower`
--                of src/include/utils.h. The parser of URLs is an argument. Manager is
--                src/library/tagmanager.cpp.
--   Meta         src/library/metamanager.cpp: `MetaManager` over the table entries_meta. Dump has the
--                operations that run in a transaction. JSON parsing, the id of a new row and the time
--                are arguments.
--
-- A loop over a list is a recursion on it. An exception is a value, and what a statement had written
-- before it is in the state that is passed on, so that a transaction has something to roll back.
-- Strings are lists of bytes. Integers are natural numbers: times and sizes are not negative, and the
-- 32-bit shift of the retry delay has its wrap-around. The messages of exceptions and the log are left
-- out. What `addToIndexEx` had put in its result before an exception is left out too. `parseEntry`,
-- which reads files by GDAL, PDAL and Exiv2, is an argument of the index operations, and theorems that
-- need more say that an entry has the path of its file.
--
-- Not modelled: the listing of the index, and `list` and `getString` of MetaManager; tiles,
-- rasters, point clouds and the other readers of geographic formats; the network (the requests of
-- registry, push, pull and share); the C interface; the command line.
pub mod Apply
pub mod AuthManager
pub mod Base
pub mod Build
pub mod BuildLock
pub mod Delta
pub mod Index
pub mod Locals
pub mod Meta
pub mod Mio
pub mod Move
pub mod PasswordManager
pub mod Remove
pub mod Retry
pub mod Sync
pub mod SyncManager
pub mod Tag
pub mod ThreadLock
pub mod Transaction
pub mod Walk
pub mod Zip
