-- ===== src/Controller.antt =====
-- crates/reink-core/src/controller.rs: `EpsonController`.
pub mod Defs
pub mod Ops
pub mod Identity
pub mod Memory
pub mod Rollback
pub mod Updates
pub mod Atomic
pub mod Reset
pub mod Device
mod Tests
