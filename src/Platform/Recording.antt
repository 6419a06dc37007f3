-- ===== src/Platform/Recording.antt =====
-- crates/reink-platform/src/transport.rs: `RecordingTransport`.
use reink_rust.Base.{Bool, List, Result, [], err, if◌then◌else◌, ok, ◌++◌, ◌∷◌, ℕ}
use reink_rust.Platform.Transport.{ByteTransport, TransportError}

pub data TransportEvent : Type 0 where
  tx : List ℕ → TransportEvent
  rx : List ℕ → TransportEvent

pub record RecordingTransport (T : ByteTransport) : Type 0 where
  pub inner : T.Target
  pub events : List TransportEvent
  pub recording_enabled : Bool

unfoldable pub new_with_recording : (T : ByteTransport) → T.Target → Bool → RecordingTransport T
new_with_recording T inner enabled = record {
  inner = inner;
  events = [];
  recording_enabled = enabled;
}

module _ (T : ByteTransport) where
  -- `if self.recording_enabled { self.events.push(event) }`
  abbrev note : TransportEvent → RecordingTransport T → RecordingTransport T
  note event t = if t.recording_enabled then record t { events = t.events ++ event ∷ [] } else t

  unfoldable pub recording_write :
      RecordingTransport T → List ℕ → Result TransportError (Unit {0}) × RecordingTransport T
  recording_write t bytes =
      let (r, inner) = T.write_all t.inner bytes in
      let t' : RecordingTransport T = record t { inner = inner } in
      elim r [ err e ↦ (err e, t') | ok u ↦ (ok tt, note (tx bytes) t') ]

  unfoldable pub recording_read :
      RecordingTransport T → ℕ → Result TransportError (List ℕ) × RecordingTransport T
  recording_read t capacity =
      let (r, inner) = T.read t.inner capacity in
      let t' : RecordingTransport T = record t { inner = inner } in
      elim r [ err e ↦ (err e, t') | ok bytes ↦ (ok bytes, note (rx bytes) t') ]

abbrev pub recording : ByteTransport → ByteTransport
recording T = record {
  Target = RecordingTransport T;
  write_all = recording_write T;
  read = recording_read T;
}
