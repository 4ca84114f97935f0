-- ===== src/Conf.antt =====
-- sources/fusg-common/src/conf.c: the configuration file.
pub mod Tokens
pub mod Lines
pub mod Scan
pub mod Atomic
pub mod Total
pub mod Printed
pub mod Tests
