-- ===== src/Lib.antt =====
-- fusg records which program used which file: a daemon reads audit events and counts them in a
-- database, and a command line tool reads the database.
--
-- The parts of the program and where they are modelled:
--
-- - FilePath: `fabsolute` and `fiscanonical` of sources/fusg-common/include/fusg/utils.h, which
--   clean the paths of events before they reach the database. FilePath/Absolute has the scan of
--   `fabsolute` on a split of its buffer, FilePath/Canonical the scoring loop of `fiscanonical`.
--   FilePath/Components is the independent description: a path is a list of components, and
--   its normal form is what a stack of names is left with.
-- - Db: the usage database of sources/fusg-common/src/db.c and include/fusg/db.h. Db/State is
--   the connection `db_t`, Db/Lock the nested lock (`db_lock`, `db_unlock`, `db_flush`),
--   Db/Records the typed access to the six gdbm files, Db/Ids the dictionaries of names and their
--   ids, Db/Usage the update and the fetch of an entry, Db/Iterator the iteration over the entries.
--   gdbm and flock are the parameter `Platform`; `IsMap` is what gdbm documents of a store, and
--   `IsReliable` says that the medium has no errors. Db/Memory is a platform in memory that has
--   both. The invariant is Db/Consistent, the abstract view is `usage` of Db/Entry: a partial
--   function from an executable and a file to counters. Db/History has sequences of updates.
--   Db/Open has `db_open`, `db_close` and the health check, over the file system of Db/Disk; while a
--   connection is opened its files can be null pointers.
-- - Conf: the configuration file of sources/fusg-common/src/conf.c. Conf/Tokens is the scanner,
--   Conf/Lines the properties, the lines and the reading loop.
-- - Events: sources/fusgd/src/store.c, which turns an audit event into updates. Events/Audit is what
--   libauparse hands over, a list of records and their fields; Events/Parse has the three parsers
--   `parse_syscall`, `parse_cwd` and `parse_path`, in a build with assertions, and Events/Store the
--   loop of `store_event`, which calls `fabsolute` and `db_update`.
-- - Search: sources/fusg/src/search.c, the searches of the command line tool. Search/Entries is the
--   loop over the entries with its three bodies, Search/Queries the functions around it, and
--   Search/Program the way from the configuration to the close of the database. A printed
--   line is a value. Search/Summary describes lines, count and total by the matching keys.
-- - Cli: sources/fusg/src/fusg.c, the arguments and the commands of the tool.
-- - Daemon: sources/fusgd/src/work.c and fusgd.c. Daemon/State is the global state, and what a round
--   of the main loop meets: the answers of select and of the clock, the signals, and the callbacks of
--   libauparse. Daemon/Work is the loop, which calls `store_event` and `db_flush`;
--   Daemon/Args the arguments. The loop is a recursion on the rounds it meets. Daemon/Main is `main`, from
--   the configuration to the exit code, over the parts above. Events/Plan and Daemon/Plan describe what
--   events ask of the database, without one and without the loop: by the signals and the waits of the
--   rounds. Daemon/Loop compares the loop with them.
-- - Logging: sources/fusg-common/src/logging.c. Logging/State has its static variables,
--   Logging/Functions and Logging/Setup its functions, and Logging/Sinks describes them by a list of sinks.
-- - Os: sources/fusg-common/src/system.c in Os/Coredump, utils.c in Os/Which, and `mkdir_p` of
--   include/fusg/utils.h in Os/Mkdir, over what the system calls answer. Os/Remove has `fremove_r`
--   of utils.h and `db_delete` of db.c, over the file system of Os/Files.
-- - Word: 64-bit integers as their eight bytes, least significant first.
-- - Base: shared names and lemmas.
--
-- A C string is the list of its bytes without the terminating zero. A function that can fail
-- returns its code as a number, as in C; a failed assertion, and a read outside of a buffer, is
-- `none` or a constructor of its own. Every addition on a counter of the database, on an id or on the
-- counts of processed and stored events is modulo 2 ^ 64; the properties of the database assume that
-- an update has two ids left below that bound. The depth of the lock and the number of lines of a
-- search are ints in C, and numbers without a bound here. `IsReliable` speaks of files that are open
-- to write, so what rests on it says nothing of a connection that is open to read only. The
-- descriptor of the database's directory is passed on, but its open and close are not compared.
-- PATH_MAX is a parameter of `fabsolute`, `fwhich` and `fremove_r`, and 4096 in the configuration and in
-- the daemon. Three functions are on fuel. The loop that reads the configuration takes at least one byte from the file in a
-- round, so the length of the file is fuel enough, as the property of that loop shows for
-- the files it speaks of.
-- The loop of a search takes a round for each key of the event table; the number of keys belongs to
-- gdbm, so its fuel is a parameter, and its property holds for all fuel above that number. A recursive
-- call of `fremove_r` has a longer path, which must fit the buffer, so PATH_MAX + 1 is fuel enough.
--
-- The six gdbm files of a connection are six fields, and a sync of all of them is one call. Not
-- modelled: traces, and the log messages of the other parts, which are output only; the release of
-- memory; `ptime`, `frealpath`, `fexists` and `fisfile` of utils.h, which format a time or ask the
-- file system; the cases of sources/fusg-test; and the wait of a daemon whose database could not be
-- opened: its last flush uses a null pointer, and `main` is taken to abort there.
pub mod Base
pub mod FilePath
pub mod Word
pub mod Db
pub mod Conf
pub mod Events
pub mod Search
pub mod Logging
pub mod Cli
pub mod Daemon
pub mod Os
