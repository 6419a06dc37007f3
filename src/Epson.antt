-- ===== src/Epson.antt =====
-- crates/reink-core/src/epson.rs: model specifications.
pub mod Spec
pub mod Raw
pub mod Load
pub mod Fields
pub mod WellFormed
pub mod Loaded
pub mod Database
pub mod Resolve
pub mod Merge
pub mod Reset
mod Tests
mod LoadTests
