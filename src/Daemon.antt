-- ===== src/Daemon.antt =====
-- sources/fusgd/src/work.c and fusgd.c: the daemon.
pub mod State
pub mod Work
pub mod Counts
pub mod Stored
pub mod Clean
pub mod Ends
pub mod Args
pub mod Plan
pub mod Follows
pub mod Same
pub mod Control
pub mod Planned
pub mod Covered
pub mod Loop
pub mod Still
pub mod Main
pub mod Exits
pub mod Recorded
pub mod Tests
pub mod MainTests
