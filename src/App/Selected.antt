-- ===== src/App/Selected.antt =====
-- crates/reink-app/src/lib.rs: `with_selected_usb_epson_session` and the
-- sessions over the Windows driver, an operation on a selected USB device with
-- its cleanup. `ReadOnlyUsbTransport` is a parameter, and so is the operation. A text that the code
-- composes of an error is that error.
use reink_rust.Base.{false, Bool, List, Option, Result, String, [], none, some, ℕ}
use reink_rust.Platform.Transport.{ByteTransport, TransportError}
use reink_rust.Platform.{TransportEvent, RecordingTransport, recording, new_with_recording}
use reink_rust.Epson.Spec.{EpsonSpec}
use reink_rust.Link.State.{D4Error, D4Link}
use reink_rust.App.Plan.{ApplicationError, setup_recovered, setup_recovery}
use reink_rust.App.Connect.{
  Connected, session, refused, connect_panicked, connect_out_of_fuel, connect_recoverable,
  EpsonD4Session, shutdown, Ending, returned, shutdown_panicked, shutdown_out_of_fuel,
}

-- The calls of `ReadOnlyUsbTransport`: `open` of the selected interface, with the text of its error, and
-- `close`.
pub record UsbTransport : Type 1 where
  pub transport : ByteTransport
  pub open_selected : Result String transport.Target
  pub close : transport.Target → Result TransportError (Unit {0}) × transport.Target

pub data CleanupError : Type 0 where
  d4_recovery : D4Error → CleanupError
  d4_shutdown_error : ApplicationError → CleanupError
  usb_close_error : TransportError → CleanupError

pub data UsbCleanupStatus : Type 0 where
  not_attempted : UsbCleanupStatus
  succeeded : UsbCleanupStatus
  failed : CleanupError → UsbCleanupStatus

pub record UsbSessionCleanup : Type 0 where
  pub d4_shutdown : UsbCleanupStatus
  pub usb_close : UsbCleanupStatus

abbrev pub no_cleanup : UsbSessionCleanup
no_cleanup = record { d4_shutdown = not_attempted; usb_close = not_attempted }

pub data OperationError : Type 0 where
  could_not_open : String → OperationError
  setup_failed : ApplicationError → OperationError
  operation_failed : String → OperationError

pub record SelectedUsbSessionOutcome (A : Type 0) : Type 0 where
  pub operation : Result OperationError A
  pub cleanup : UsbSessionCleanup
  pub events : List TransportEvent

abbrev pub recovery_status : ApplicationError → UsbCleanupStatus
recovery_status (setup_recovered setup) = succeeded
recovery_status (setup_recovery setup recovery) = failed (d4_recovery recovery)
recovery_status _ = not_attempted

abbrev pub shutdown_status : Result ApplicationError (Unit {0}) → UsbCleanupStatus
shutdown_status (Result.ok u) = succeeded
shutdown_status (Result.err e) = failed (d4_shutdown_error e)

abbrev pub close_status : Result TransportError (Unit {0}) → UsbCleanupStatus
close_status (Result.ok u) = succeeded
close_status (Result.err e) = failed (usb_close_error e)

abbrev pub operation_result : {A : Type 0} → Result String A → Result OperationError A
operation_result (Result.ok a) = Result.ok a
operation_result (Result.err e) = Result.err (operation_failed e)

abbrev pub recorded : UsbTransport → ByteTransport
recorded U = recording U.transport

module _ (U : UsbTransport) (A : Type 0) where
  -- The outcome with the transport that is dropped, if there is one; a failed `expect`; a peer that the
  -- fuel did not wait for.
  pub data Selected : Type 0 where
    finished : SelectedUsbSessionOutcome A → Option U.transport.Target → Selected
    selected_panicked selected_out_of_fuel : Selected

  -- `into_parts`, the close of the transport, and the outcome.
  abbrev pub cleaned_up :
      Result OperationError A → UsbCleanupStatus → RecordingTransport U.transport → Selected
  cleaned_up operation d4_shutdown recording =
      let (closed, transport) = U.close recording.inner in
      finished
        (record {
          operation = operation;
          cleanup = record { d4_shutdown = d4_shutdown; usb_close = close_status closed };
          events = recording.events;
        })
        (some transport)

  unfoldable pub after_shutdown : Result String A → Ending × D4Link (recorded U) → Selected
  after_shutdown operation (returned r, link) =
      cleaned_up (operation_result operation) (shutdown_status r) link.target
  after_shutdown operation (shutdown_panicked, link) = selected_panicked
  after_shutdown operation (shutdown_out_of_fuel, link) = selected_out_of_fuel

  module _ (fuel : ℕ)
      (operation : EpsonD4Session (recorded U)
        → Result String A × EpsonD4Session (recorded U)) where
    unfoldable pub after_connect : Connected (recorded U) → Selected
    unfolding after_shutdown shutdown
    after_connect (session s) = let (r, s') = operation s in after_shutdown r (shutdown fuel s')
    after_connect (refused error recording) =
        cleaned_up (Result.err (setup_failed error)) (recovery_status error) recording
    after_connect connect_panicked = selected_panicked
    after_connect connect_out_of_fuel = selected_out_of_fuel

    unfoldable pub with_opened : EpsonSpec → Bool → Result String U.transport.Target → Selected
    unfolding after_connect new_with_recording connect_recoverable
    with_opened spec record_traffic (Result.ok transport) = after_connect (
        connect_recoverable (recorded U) fuel
          (new_with_recording U.transport transport record_traffic) spec)
    with_opened spec record_traffic (Result.err e) =
        finished
          (record { operation = Result.err (could_not_open e); cleanup = no_cleanup; events = [] })
          none

    unfoldable pub with_selected_usb_epson_session : EpsonSpec → Bool → Selected
    unfolding with_opened
    with_selected_usb_epson_session spec record_traffic =
        with_opened spec record_traffic U.open_selected

    -- The same, step for step, over `WindowsNativeReadOnlyTransport`, whose `open` takes a candidate.
    unfoldable pub with_opened_windows_native_epson_session : EpsonSpec → Bool → Selected
    unfolding with_opened
    with_opened_windows_native_epson_session spec record_traffic =
        with_opened spec record_traffic U.open_selected

    -- A mutation session records no traffic.
    unfoldable pub with_selected_windows_native_experimental_mutation_session : EpsonSpec → Selected
    unfolding with_opened_windows_native_epson_session
    with_selected_windows_native_experimental_mutation_session spec =
        with_opened_windows_native_epson_session spec false
