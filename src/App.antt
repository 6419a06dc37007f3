-- ===== src/App.antt =====
-- crates/reink-app/src/lib.rs: the application services.
pub mod Plan
pub mod Updates
pub mod Memory
pub mod Backup
pub mod Apply
pub mod Connect
pub mod Entry
pub mod Setup
pub mod Selected
pub mod Cleanup
mod Tests
mod ConnectTests
