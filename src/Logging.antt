-- ===== src/Logging.antt =====
-- sources/fusg-common/src/logging.c: log messages to the console, to a file and to syslog.
pub mod State
pub mod Functions
pub mod Setup
pub mod Sinks
pub mod Delivery
pub mod Chain
pub mod Steps
pub mod Requests
pub mod Outputs
pub mod Room
pub mod Tests
