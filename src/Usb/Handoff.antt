-- ===== src/Usb/Handoff.antt =====
-- crates/reink-usb/src/adapter.rs and lib.rs: how `ReadOnlyUsbTransport` takes an interface over from the
-- kernel's driver and gives it back, on Linux and macOS. rusb is a parameter: the record `DeviceHandle`.
use reink_rust.Usb.Selection.{UsbDeviceSelectionError}
use reink_rust.Base.{Bool, Option, Result, false, if◌then◌else◌, none, some, true, ℕ}

-- `rusb::Error`, as far as the code tells its values apart.
pub data RusbError : Type 0 where
  timeout not_supported access no_device busy io other : RusbError

pub data UsbDriverHandoff : Type 0 where
  refuse temporarily_detach : UsbDriverHandoff

pub record UsbDriverHandoffOutcome : Type 0 where
  pub requested : Bool
  pub detached : Bool
  pub reattached : Option Bool

abbrev pub is_requested : UsbDriverHandoff → Bool
is_requested refuse = false
is_requested temporarily_detach = true

abbrev pub requested_outcome : UsbDriverHandoff → UsbDriverHandoffOutcome
requested_outcome policy = record {
  requested = is_requested policy;
  detached = false;
  reattached = none;
}

abbrev pub with_detached : Bool → UsbDriverHandoffOutcome → UsbDriverHandoffOutcome
with_detached detached outcome = record outcome { detached = detached }

abbrev pub record_reattach : Bool → UsbDriverHandoffOutcome → UsbDriverHandoffOutcome
record_reattach succeeded outcome =
    if outcome.detached then record outcome { reattached = some succeeded } else outcome

-- `UsbInterfaceSelector` of reink-platform.
pub record UsbInterfaceSelector : Type 0 where
  pub number : ℕ
  pub alternate_setting : ℕ

pub data UsbOpenError : Type 0 where
  context : RusbError → UsbOpenError
  device_selection : UsbDeviceSelectionError → UsbOpenError
  descriptor : RusbError → UsbOpenError
  interface_not_found : UsbInterfaceSelector → UsbOpenError
  open_error : RusbError → UsbOpenError
  read_device_id : RusbError → UsbOpenError
  invalid_device_id_length : (received : ℕ) (declared : Option ℕ) → UsbOpenError
  kernel_driver_query : RusbError → UsbOpenError
  kernel_driver_active_error : (interface : ℕ) → UsbOpenError
  detach_kernel_driver_error claim_error : RusbError → UsbOpenError
  claim_and_reattach : (claim reattach : RusbError) → UsbOpenError
  write_exchange read_exchange release reattach_kernel_driver : RusbError → UsbOpenError
  release_and_reattach : (release reattach : UsbOpenError) → UsbOpenError
  operation_and_close : (operation close : UsbOpenError) → UsbOpenError
  empty_expected_reply : UsbOpenError

-- The calls of a handle of rusb; each returns the state after it.
pub record DeviceHandle : Type 1 where
  pub Handle : Type 0
  pub kernel_driver_active : Handle → ℕ → Result RusbError Bool × Handle
  pub detach_kernel_driver : Handle → ℕ → Result RusbError (Unit {0}) × Handle
  pub attach_kernel_driver : Handle → ℕ → Result RusbError (Unit {0}) × Handle
  pub claim_interface : Handle → ℕ → Result RusbError (Unit {0}) × Handle
  pub release_interface : Handle → ℕ → Result RusbError (Unit {0}) × Handle

abbrev pub is_not_supported : RusbError → Bool
is_not_supported not_supported = true
is_not_supported _ = false

-- Without what only the transfers use: the context, the endpoints and the timeout.
module _ (D : DeviceHandle) where
  pub record ReadOnlyUsbTransport : Type 0 where
    pub handle : D.Handle
    pub interface : ℕ
    pub claimed : Bool
    pub detached_kernel_driver : Bool
    pub driver_handoff : UsbDriverHandoffOutcome

  module _ (interface : ℕ) where
    abbrev pub after_reattach :
        RusbError → Result RusbError (Unit {0}) × D.Handle → Result UsbOpenError Bool × D.Handle
    after_reattach claim (Result.ok u, h) = (Result.err (claim_error claim), h)
    after_reattach claim (Result.err e, h) = (Result.err (claim_and_reattach claim e), h)

    unfoldable pub after_claim :
        Bool → Result RusbError (Unit {0}) × D.Handle → Result UsbOpenError Bool × D.Handle
    after_claim detached (Result.ok u, h) = (Result.ok detached, h)
    after_claim true (Result.err claim, h) =
        after_reattach claim (D.attach_kernel_driver h interface)
    after_claim false (Result.err claim, h) = (Result.err (claim_error claim), h)

    unfoldable pub after_detach :
        Result RusbError (Unit {0}) × D.Handle → Result UsbOpenError Bool × D.Handle
    unfolding after_claim
    after_detach (Result.ok u, h) = after_claim true (D.claim_interface h interface)
    after_detach (Result.err e, h) = (Result.err (detach_kernel_driver_error e), h)

    unfoldable pub after_query :
        UsbDriverHandoff → Result RusbError Bool × D.Handle → Result UsbOpenError Bool × D.Handle
    unfolding after_detach after_claim
    after_query refuse (Result.ok true, h) = (Result.err (kernel_driver_active_error interface), h)
    after_query temporarily_detach (Result.ok true, h) =
        after_detach (D.detach_kernel_driver h interface)
    after_query handoff (Result.ok false, h) = after_claim false (D.claim_interface h interface)
    after_query handoff (Result.err e, h) =
        if is_not_supported e
        then after_claim false (D.claim_interface h interface)
        else (Result.err (kernel_driver_query e), h)

    unfoldable pub claim_interface_with_policy :
        UsbDriverHandoff → D.Handle → Result UsbOpenError Bool × D.Handle
    unfolding after_query
    claim_interface_with_policy handoff h = after_query handoff (D.kernel_driver_active h interface)

    -- The transport that `open_device_with_policy` makes of a claimed handle.
    abbrev pub opened : UsbDriverHandoff → Bool → D.Handle → ReadOnlyUsbTransport
    opened handoff detached h = record {
      handle = h;
      interface = interface;
      claimed = true;
      detached_kernel_driver = detached;
      driver_handoff = with_detached detached (requested_outcome handoff);
    }

  abbrev pub released :
      Result RusbError (Unit {0}) × D.Handle
      → ReadOnlyUsbTransport
      → Option UsbOpenError × ReadOnlyUsbTransport
  released (Result.ok u, h) t = (none, record t { handle = h; claimed = false })
  released (Result.err e, h) t = (some (release e), record t { handle = h; claimed = false })

  unfoldable pub release_claimed : ReadOnlyUsbTransport → Option UsbOpenError × ReadOnlyUsbTransport
  release_claimed t = elim t.claimed [
    | true ↦ released (D.release_interface t.handle t.interface) t
    | false ↦ (none, t)
  ]

  abbrev pub reattached :
      Result RusbError (Unit {0}) × D.Handle
      → ReadOnlyUsbTransport
      → Option UsbOpenError × ReadOnlyUsbTransport
  reattached (Result.ok u, h) t = (
    none,
    record t {
      handle = h;
      detached_kernel_driver = false;
      driver_handoff = record_reattach true t.driver_handoff;
    },
  )
  reattached (Result.err e, h) t = (
    some (reattach_kernel_driver e),
    record t { handle = h; driver_handoff = record_reattach false t.driver_handoff },
  )

  unfoldable pub reattach_detached :
      ReadOnlyUsbTransport → Option UsbOpenError × ReadOnlyUsbTransport
  reattach_detached t = elim t.detached_kernel_driver [
    | true ↦ reattached (D.attach_kernel_driver t.handle t.interface) t
    | false ↦ (none, t)
  ]

  abbrev pub closed : Option UsbOpenError → Option UsbOpenError → Result UsbOpenError (Unit {0})
  closed none none = Result.ok tt
  closed (some e) none = Result.err e
  closed none (some e) = Result.err e
  closed (some e) (some e') = Result.err (release_and_reattach e e')

  unfoldable pub close :
      ReadOnlyUsbTransport → Result UsbOpenError (Unit {0}) × ReadOnlyUsbTransport
  unfolding release_claimed reattach_detached
  close t =
      let (release_error, t') = release_claimed t in
      let (reattach_error, t'') = reattach_detached t' in (closed release_error reattach_error, t'')

  abbrev pub finished :
      {A : Type 0} → Result UsbOpenError A → Result UsbOpenError (Unit {0}) → Result UsbOpenError A
  finished (Result.ok value) (Result.ok u) = Result.ok value
  finished (Result.err e) (Result.ok u) = Result.err e
  finished (Result.ok value) (Result.err c) = Result.err c
  finished (Result.err e) (Result.err c) = Result.err (operation_and_close e c)

  unfoldable pub finish_operation :
      {A : Type 0}
      → Result UsbOpenError A
      → ReadOnlyUsbTransport
      → Result UsbOpenError A × ReadOnlyUsbTransport
  unfolding close
  finish_operation result t = let (r, t') = close t in (finished result r, t')
