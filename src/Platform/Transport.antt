-- ===== src/Platform/Transport.antt =====
-- crates/reink-platform/src/transport.rs and error.rs: the interface `ByteTransport`. A transport is
-- a state; a write returns the state after it, a read also the bytes that it put into the buffer.
use reink_rust.Base.{ℕ, List, String, Result}

pub data TransportErrorKind : Type 0 where
  io permission_denied device_unavailable timeout unsupported : TransportErrorKind

pub record TransportError : Type 0 where
  pub kind : TransportErrorKind
  pub operation : String
  pub message : String

pub record ByteTransport : Type 1 where
  pub Target : Type 0
  -- `write_all(data)`
  pub write_all : Target → List ℕ → Result TransportError (Unit {0}) × Target
  -- `read(buffer)` for a buffer of that many bytes
  pub read : Target → ℕ → Result TransportError (List ℕ) × Target
