-- ===== src/Platform/Control.antt =====
-- crates/reink-platform/src/control.rs: the interface `ControlChannel`. A channel is a state; a
-- request returns the state after it.
use reink_rust.Base.{List, Result, String, ℕ}
use reink_rust.Platform.Transport.{TransportError}

pub data ControlError : Type 0 where
  transport : TransportError → ControlError
  protocol : (message : String) → ControlError
  device_rejected : (message : String) → ControlError

pub record ControlChannel : Type 1 where
  pub Channel : Type 0
  pub request : Channel → List ℕ → Result ControlError (List ℕ) × Channel
