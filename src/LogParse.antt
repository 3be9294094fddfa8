-- ===== src/LogParse.antt =====
-- applets/log_parse: a structured log processor that reads lines.
pub mod Filter
pub mod Fields
pub mod Output
pub mod Trim
pub mod Command
pub mod Main
mod Tests
pub mod MainTests
