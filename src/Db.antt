-- ===== src/Db.antt =====
-- sources/fusg-common/src/db.c and include/fusg/db.h: the usage database.
pub mod Platform
pub mod State
pub mod Lock
pub mod Records
pub mod Ids
pub mod Usage
pub mod Iterator
pub mod View
pub mod Register
pub mod Consistent
pub mod Locking
pub mod Key
pub mod Codec
pub mod Entry
pub mod Names
pub mod Refinement
pub mod Update
pub mod Nesting
pub mod Fetch
pub mod Lookup
pub mod History
pub mod Flush
pub mod Disk
pub mod Open
pub mod Balance
pub mod Opening
pub mod Connected
pub mod Accounts
pub mod Create
pub mod Session
pub mod Still
pub mod Memory
pub mod Fresh
pub mod Initial
pub mod Tests
pub mod OpenTests
