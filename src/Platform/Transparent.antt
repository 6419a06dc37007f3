-- ===== src/Platform/Transparent.antt =====
-- crates/reink-platform/src/transport.rs: a `RecordingTransport` against the transport inside it.
use reink_rust.Base.{
  Bool, ap, append_assoc, false, sym, true, ◌∙◌, Bool-cases, Result-cases, append-nil, inl, inr,
  refl, List, Result, [], err, if◌then◌else◌, ok, ◌++◌, ◌∷◌, ◌≡◌, ℕ,
}
use reink_rust.Platform.Transport.{ByteTransport, TransportError}
use reink_rust.Platform.Recording.{
  TransportEvent, tx, rx, RecordingTransport, recording, recording_write, recording_read,
}

-- A use of a transport, and what it came to: of a write the bytes written, of a read the bytes read.
pub data Use : Type 0 where
  writes : List ℕ → Use
  reads : (capacity : ℕ) → Use

abbrev pub Answers : Type 0
Answers = List (Use × Result TransportError (List ℕ))

abbrev written : List ℕ → Result TransportError (Unit {0}) → Result TransportError (List ℕ)
written bytes (ok u) = ok bytes
written bytes (err e) = err e

module _ (T : ByteTransport) where
  pub use_once : Use → T.Target → Result TransportError (List ℕ) × T.Target
  use_once (writes bytes) t = (written bytes (T.write_all t bytes).0, (T.write_all t bytes).1)
  use_once (reads capacity) t = T.read t capacity

  pub use_all : List Use → T.Target → Answers × T.Target
  use_all [] t = ([], t)
  use_all (u ∷ us) t =
      let (r, t') = use_once u t in let (rs, t'') = use_all us t' in ((u, r) ∷ rs, t'')

-- The events that a sequence of uses leaves.
pub transfers : Answers → List TransportEvent
transfers [] = []
transfers ((u, err e) ∷ rs) = transfers rs
transfers ((writes b, ok bytes) ∷ rs) = tx bytes ∷ transfers rs
transfers ((reads n, ok bytes) ∷ rs) = rx bytes ∷ transfers rs

module _ (T : ByteTransport) where
  -- The event that one use adds.
  abbrev after_use : Use → RecordingTransport T → RecordingTransport T
  after_use u t = record {
    inner = (use_once T u t.inner).1;
    events =
        if t.recording_enabled
        then t.events ++ transfers ((u, (use_once T u t.inner).0) ∷ [])
        else t.events;
    recording_enabled = t.recording_enabled;
  }

  use_once-recording :
      (u : Use) (t : RecordingTransport T)
      → use_once (recording T) u t ≡ ((use_once T u t.inner).0, after_use u t)
  unfolding use_once transfers recording_write recording_read
  use_once-recording (writes bytes) t = elim (Result-cases (T.write_all t.inner bytes).0) [
    | inl (u, e) ↦ elim (Bool-cases t.recording_enabled) [
      | inl b ↦ rw (e, b, recording_write, recording_read) refl
      | inr b ↦ rw (e, b, recording_write, recording_read) refl
    ]
    | inr (x, e) ↦ elim (Bool-cases t.recording_enabled) [
      | inl b ↦ rw (e, b, recording_write, recording_read, append-nil) refl
      | inr b ↦ rw (e, b, recording_write, recording_read) refl
    ]
  ]
  use_once-recording (reads capacity) t = elim (Result-cases (T.read t.inner capacity).0) [
    | inl (u, e) ↦ elim (Bool-cases t.recording_enabled) [
      | inl b ↦ rw (e, b, recording_write, recording_read) refl
      | inr b ↦ rw (e, b, recording_write, recording_read) refl
    ]
    | inr (x, e) ↦ elim (Bool-cases t.recording_enabled) [
      | inl b ↦ rw (e, b, recording_write, recording_read, append-nil) refl
      | inr b ↦ rw (e, b, recording_write, recording_read) refl
    ]
  ]

  transfers-cons :
      (u : Use) (r : Result TransportError (List ℕ)) (rs : Answers)
      → transfers ((u, r) ∷ rs) ≡ transfers ((u, r) ∷ []) ++ transfers rs
  unfolding transfers
  transfers-cons u (err e) rs = refl
  transfers-cons (writes b) (ok bytes) rs = refl
  transfers-cons (reads n) (ok bytes) rs = refl

  nothing_logged :
      (b : Bool) (events : List TransportEvent)
      → events ≡ (if b then events ++ transfers [] else events)
  unfolding transfers
  nothing_logged true events = sym (append-nil events)
  nothing_logged false events = refl

  logged :
      (b : Bool) (events : List TransportEvent) (u : Use) (r : Result TransportError (List ℕ))
      (rs : Answers)
      → (if b
          then (if b then events ++ transfers ((u, r) ∷ []) else events) ++ transfers rs
          else (if b then events ++ transfers ((u, r) ∷ []) else events))
        ≡ (if b then events ++ transfers ((u, r) ∷ rs) else events)
  logged true events u r rs =
      append_assoc events _ _ ∙ ap (λ l. events ++ l) (sym (transfers-cons u r rs))
  logged false events u r rs = refl

  -- A use of a recording transport answers as the transport inside would, whatever the sequence of
  -- writes and reads; it leaves that transport in the same state; and it has added the transfers that
  -- succeeded, in order, to its events, or nothing if recording is off.
  pub use_all-recording :
      (us : List Use) (t : RecordingTransport T)
      → ((use_all (recording T) us t).0 ≡ (use_all T us t.inner).0)
        × ((use_all (recording T) us t).1 ≡ record {
          inner = (use_all T us t.inner).1;
          events =
              if t.recording_enabled
              then t.events ++ transfers (use_all T us t.inner).0
              else t.events;
          recording_enabled = t.recording_enabled;
        })
  unfolding use_all
  use_all-recording [] t = (
    refl,
    ap (λ events. record t { events = events }) (nothing_logged t.recording_enabled t.events),
  )
  use_all-recording (u ∷ us) t = rw (use_once-recording u t) (
      let (answers, target) = use_all-recording us (after_use u t) in
      (
        ap (λ rs. (u, (use_once T u t.inner).0) ∷ rs) answers,
        target
            ∙ ap
                (λ events. record {
                  inner = (use_all T us (use_once T u t.inner).1).1;
                  events = events;
                  recording_enabled = t.recording_enabled;
                })
                (logged t.recording_enabled t.events u (use_once T u t.inner).0
                  (use_all T us (use_once T u t.inner).1).0),
      ))
