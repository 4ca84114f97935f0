-- ===== src/Events.antt =====
-- sources/fusgd/src/store.c: from an audit event to updates of the database.
pub mod Audit
pub mod Parse
pub mod Store
pub mod Canonical
pub mod Paths
pub mod Plan
pub mod Times
pub mod Follows
pub mod Planned
pub mod Still
pub mod Tests
