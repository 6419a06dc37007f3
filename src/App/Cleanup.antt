-- ===== src/App/Cleanup.antt =====
-- crates/reink-app/src/lib.rs: what an operation on a selected USB device leaves behind.
use reink_rust.Link.Keeps.{IsLink}
use reink_rust.Link.Ends.{IsEnded}
use reink_rust.Base.{
  [], ap, subst, ◌⊎◌, List, Result-cases, err-ne-ok, inl, inr, sym, ◌∙◌, Bool, Result, String, none,
  some, ◌≡◌, ℕ, refl,
}
use reink_rust.Platform.Transport.{ByteTransport, TransportError}
use reink_rust.Platform.{recording_read, RecordingTransport, recording, new_with_recording}
use reink_rust.Epson.Spec.{EpsonSpec}
use reink_rust.Link.State.{D4Link}
use reink_rust.Link.Reads.{ReadsBytes}
use reink_rust.App.Connect.{
  connect_recoverable, Connected, session, refused, connect_panicked, connect_out_of_fuel,
  EpsonD4Session, shutdown, Ending, returned, shutdown_panicked, shutdown_out_of_fuel,
}
use reink_rust.App.Plan.{ApplicationError}
use reink_rust.App.Setup.{shutdown-IsEnded, IsReady, connect_recoverable-IsReady}
use reink_rust.App.Selected.{
  selected_out_of_fuel, recovery_status, operation_result, setup_failed, selected_panicked,
  SelectedUsbSessionOutcome, could_not_open, UsbTransport, no_cleanup, shutdown_status,
  close_status, recorded, Selected, finished, after_shutdown, after_connect, with_opened,
  with_selected_usb_epson_session,
}

module _ (T : ByteTransport) (t : RecordingTransport T) (capacity : ℕ) where
  recording_read-ok :
      (bytes : List ℕ)
      → (T.read t.inner capacity).0 ≡ Result.ok bytes
      → (recording_read T t capacity).0 ≡ Result.ok bytes
  unfolding recording_read
  recording_read-ok bytes h = rw (recording_read, h) refl

  recording_read-err :
      (e : TransportError)
      → (T.read t.inner capacity).0 ≡ Result.err e
      → (recording_read T t capacity).0 ≡ Result.err e
  unfolding recording_read
  recording_read-err e h = rw (recording_read, h) refl

  inner_read :
      (bytes : List ℕ)
      → (recording_read T t capacity).0 ≡ Result.ok bytes
      → (T.read t.inner capacity).0 ≡ Result.ok bytes
  inner_read bytes h = elim (Result-cases (T.read t.inner capacity).0) [
    | inl (found, eq) ↦ eq ∙ sym (recording_read-ok found eq) ∙ h
    | inr (e, eq) ↦ absurd (err-ne-ok (sym (recording_read-err e eq) ∙ h))
  ]

-- A recording transport reads bytes if the transport inside it does.
recording-ReadsBytes : (T : ByteTransport) → ReadsBytes T → ReadsBytes (recording T)
recording-ReadsBytes T b = record {
  reads = λ t capacity bytes h. b.reads t.inner capacity bytes (inner_read T t capacity bytes h);
}

module _ (U : UsbTransport) (A : Type 0) (fuel : ℕ) (spec : EpsonSpec)
    (operation : EpsonD4Session (recorded U) → Result String A × EpsonD4Session (recorded U))
    (record_traffic : Bool) where
  -- What the opened transport is connected to.
  abbrev pub connection : U.transport.Target → Connected (recorded U)
  connection opened =
      connect_recoverable (recorded U) fuel (new_with_recording U.transport opened record_traffic)
        spec

  -- A shutdown without an error leaves a conversation that has ended.
  abbrev pub EndedBy : Result ApplicationError (Unit {0}) → D4Link (recorded U) → Type 0
  EndedBy (Result.ok u) link = IsEnded link
  EndedBy (Result.err e) link = Unit {0}

  -- The operation was run on the session of the connection, which was ready; then the session that it left
  -- was shut down. The outcome has the result of the one and the report of the other, and the events
  -- that were recorded by then; the transport to be closed is that of the link after the shutdown.
  pub record Ran (opened : U.transport.Target) (o : SelectedUsbSessionOutcome A)
      (before : U.transport.Target) : Type 0 where
    pub connected : EpsonD4Session (recorded U)
    pub connects : connection opened ≡ session connected
    pub ready : IsReady spec connected
    pub result : o.operation ≡ operation_result (operation connected).0
    pub reported : Result ApplicationError (Unit {0})
    pub link : D4Link (recorded U)
    pub shuts_down : shutdown fuel (operation connected).1 ≡ (returned reported, link)
    pub status : o.cleanup.d4_shutdown ≡ shutdown_status reported
    pub is_ended : EndedBy reported link
    pub transport : before ≡ link.target.inner
    pub events : o.events ≡ link.target.events

  -- No session was set up: the outcome has the error, and how far the link was recovered.
  pub record NotSetUp (opened : U.transport.Target) (o : SelectedUsbSessionOutcome A)
      (before : U.transport.Target) : Type 0 where
    pub error : ApplicationError
    pub recording : RecordingTransport U.transport
    pub refuses : connection opened ≡ refused error recording
    pub result : o.operation ≡ Result.err (setup_failed error)
    pub status : o.cleanup.d4_shutdown ≡ recovery_status error
    pub transport : before ≡ recording.inner
    pub events : o.events ≡ recording.events

  -- A transport that was opened is closed after all that, once: it is dropped as the close left it, and the
  -- close is reported. Without a transport nothing is cleaned up. A panic or a lack of fuel is one of
  -- the set-up or of the shutdown.
  abbrev pub CleanedUp : Result String U.transport.Target → Selected U A → Type 0
  CleanedUp (Result.ok opened) (finished o (some dropped)) =
      (before : U.transport.Target) × (dropped ≡ (U.close before).1)
      × (o.cleanup.usb_close ≡ close_status (U.close before).0)
      × (Ran opened o before ⊎ NotSetUp opened o before)
  CleanedUp (Result.ok opened) (finished o none) = ⊥
  CleanedUp (Result.ok opened) selected_panicked =
      (connection opened ≡ connect_panicked)
      ⊎ ((s : EpsonD4Session (recorded U)) × (connection opened ≡ session s)
          × ((shutdown fuel (operation s).1).0 ≡ shutdown_panicked))
  CleanedUp (Result.ok opened) selected_out_of_fuel =
      (connection opened ≡ connect_out_of_fuel)
      ⊎ ((s : EpsonD4Session (recorded U)) × (connection opened ≡ session s)
          × ((shutdown fuel (operation s).1).0 ≡ shutdown_out_of_fuel))
  CleanedUp (Result.err e) (finished o none) =
      o ≡ (record { operation = Result.err (could_not_open e); cleanup = no_cleanup; events = [] })
  CleanedUp (Result.err e) _ = ⊥

  module _ (b : ReadsBytes U.transport)
      (keeps : (s : EpsonD4Session (recorded U))
        → IsLink s.link
        → IsLink (operation s).1.link) where
    shut-EndedBy :
        (s : EpsonD4Session (recorded U)) (r : Result ApplicationError (Unit {0}))
        (link : D4Link (recorded U))
        → IsLink s.link
        → shutdown fuel s ≡ (returned r, link)
        → EndedBy r link
    shut-EndedBy s (Result.ok u) link v eq =
        subst (λ p. IsEnded p.1) eq
          (shutdown-IsEnded (recording-ReadsBytes U.transport b) fuel s v (ap (λ p. p.0) eq))
    shut-EndedBy s (Result.err e) link v eq = tt

    after_shutdown-CleanedUp :
        (opened : U.transport.Target) (s : EpsonD4Session (recorded U))
        (r : Ending × D4Link (recorded U))
        → connection opened ≡ session s
        → IsReady spec s
        → shutdown fuel (operation s).1 ≡ r
        → CleanedUp (Result.ok opened) (after_shutdown U A (operation s).0 r)
    unfolding after_shutdown
    after_shutdown-CleanedUp opened s (returned r, link) c ready eq = (
      link.target.inner,
      refl,
      refl,
      inl (record {
        connected = s;
        connects = c;
        ready = ready;
        result = refl;
        reported = r;
        link = link;
        shuts_down = eq;
        status = refl;
        is_ended = shut-EndedBy (operation s).1 r link (keeps s ready.link) eq;
        transport = refl;
        events = refl;
      }),
    )
    after_shutdown-CleanedUp opened s (shutdown_panicked, link) c ready eq =
        inr (s, c, ap (λ p. p.0) eq)
    after_shutdown-CleanedUp opened s (shutdown_out_of_fuel, link) c ready eq =
        inr (s, c, ap (λ p. p.0) eq)

    after_connect-CleanedUp :
        (opened : U.transport.Target) (c : Connected (recorded U))
        → connection opened ≡ c
        → CleanedUp (Result.ok opened) (after_connect U A fuel operation c)
    unfolding after_connect
    after_connect-CleanedUp opened (session s) eq =
        after_shutdown-CleanedUp opened s (shutdown fuel (operation s).1) eq
          (connect_recoverable-IsReady (recording-ReadsBytes U.transport b) fuel spec
            (new_with_recording U.transport opened record_traffic) s eq)
          refl
    after_connect-CleanedUp opened (refused error recording) eq = (
      recording.inner,
      refl,
      refl,
      inr (record {
        error = error;
        recording = recording;
        refuses = eq;
        result = refl;
        status = refl;
        transport = refl;
        events = refl;
      }),
    )
    after_connect-CleanedUp opened connect_panicked eq = inl eq
    after_connect-CleanedUp opened connect_out_of_fuel eq = inl eq

    with_opened-CleanedUp :
        (opened : Result String U.transport.Target)
        → CleanedUp opened (with_opened U A fuel operation spec record_traffic opened)
    unfolding with_opened
    with_opened-CleanedUp (Result.ok transport) =
        after_connect-CleanedUp transport (connection transport) refl
    with_opened-CleanedUp (Result.err e) = refl

    -- Over a USB transport whose reads give bytes, and for an operation that keeps the link well formed: if no
    -- transport could be opened, the outcome is that error, and nothing is cleaned up. Otherwise the
    -- transport is dropped as its close left it, with that close reported. Before it, either the
    -- operation was run on the session that was connected, which was ready, and the session that the
    -- operation left was shut down, with both reported, and the conversation ended if the shutdown has
    -- no error; or no session was set up, and the error and the recovery of the link are reported. If
    -- there is no outcome, the set-up or the shutdown panicked or ran out of fuel.
    pub with_selected_usb_epson_session-CleanedUp :
        CleanedUp U.open_selected
          (with_selected_usb_epson_session U A fuel operation spec record_traffic)
    unfolding with_selected_usb_epson_session
    with_selected_usb_epson_session-CleanedUp = with_opened-CleanedUp U.open_selected
