-- ===== src/Cli.antt =====
-- sources/fusg/src/fusg.c: the command line tool.
pub mod Args
pub mod Main
pub mod Within
pub mod Rendered
pub mod Tests
