-- ===== src/FilePath.antt =====
-- sources/fusg-common/include/fusg/utils.h: the functions on path names. `fabsolute` is in
-- Absolute, `fiscanonical` in Canonical, the list of components that both are held to in
-- Components.
pub mod Absolute
pub mod Components
pub mod Canonical
pub mod Resolve
pub mod Normal
pub mod Joined
mod Tests
