-- ===== src/Snmp.antt =====
-- crates/reink-snmp/src/lib.rs: the SNMP control channel.
pub mod Defs
pub mod Environment
pub mod Configured
pub mod Session
pub mod Answers
mod Tests
