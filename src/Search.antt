-- ===== src/Search.antt =====
-- sources/fusg/src/search.c: the searches over the usage database.
pub mod Entries
pub mod Queries
pub mod Program
pub mod Unreadable
pub mod Visits
pub mod Named
pub mod Summary
pub mod Files
pub mod Tests
pub mod ProgramTests
