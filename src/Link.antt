-- ===== src/Link.antt =====
-- crates/reink-d4/src/link.rs: `D4Link`.
pub mod State
pub mod Io
pub mod Peer
pub mod Session
pub mod Services
pub mod Control
pub mod Keeps
use reink_rust.Base.{ℕ}
pub mod Spin
pub mod Exits
pub mod Invariant
pub mod Reads
pub mod Answers
pub mod Methods
pub mod Opens
pub mod Reach
pub mod Ends
pub mod Leaves
pub mod Returns
pub mod Credit
pub mod Script
mod Tests
mod Runs
