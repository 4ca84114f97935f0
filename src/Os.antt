-- ===== src/Os.antt =====
-- sources/fusg-common/src/system.c and utils.c, and the functions of include/fusg/utils.h that work on
-- the file system.
pub mod Coredump
pub mod Mkdir
pub mod Which
pub mod Files
pub mod Remove
pub mod Removed
pub mod Deleted
pub mod Cleared
pub mod RemoveTests
pub mod Tests
