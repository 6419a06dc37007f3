-- ===== src/Platform.antt =====
-- crates/reink-platform/src/{transport,error,control}.rs: the byte transport that a link runs over,
-- the recording wrapper around one, and the control channel that printer commands go through.
pub mod Transport
pub mod Control
mod Recording
use reink_rust.Base.{ℕ}
pub use Recording.{TransportEvent, tx, rx, RecordingTransport, recording}
unfoldable pub use Recording.{new_with_recording, recording_write, recording_read}
pub mod Transparent
mod Tests
