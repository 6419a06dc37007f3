-- ===== src/Usb/Exchange.antt =====
-- crates/reink-usb/src/adapter.rs: the reply to a probe and the device identifier, over a read that is a
-- parameter.
use reink_rust.Base.Text.{contains, is_empty}
use reink_rust.Base.{
  Bool, List, Result, [], drop, false, if◌then◌else◌, leb, length, none, not, some, suc, take, true,
  zero, ◌&&◌, ◌*◌, ◌++◌, ◌+◌, ◌∷◌, ℕ,
}
use reink_rust.Usb.Handoff.{RusbError, timeout, UsbOpenError, invalid_device_id_length}

pub data BoundedExchangeProbeResult : Type 0 where
  recognized : BoundedExchangeProbeResult
  unrecognized : (received_bytes : ℕ) → BoundedExchangeProbeResult

abbrev pub is_timeout : RusbError → Bool
is_timeout timeout = true
is_timeout _ = false

-- Whether the expected reply stands in what `append_and_recognize` has collected.
unfoldable pub recognizes : List ℕ → List ℕ → Bool
unfolding contains
recognizes reply expected = not (is_empty expected) && contains reply expected

module _ {H : Type 0} (read : H → ℕ → Result RusbError (List ℕ) × H) (expected : List ℕ) where
  -- The loop over the reads that are left, with the reply so far.
  unfoldable pub read_loop : ℕ → List ℕ → H → Result RusbError BoundedExchangeProbeResult × H
  unfolding recognizes
  read_loop zero reply h = (Result.ok (unrecognized (length reply)), h)
  read_loop (suc reads) reply h =
      let (r, h') = read h 256 in
      elim r [
        | Result.err e ↦
            if is_timeout e
            then (Result.ok (unrecognized (length reply)), h')
            else (Result.err e, h')
        | Result.ok fragment ↦
            let rest = read_loop reads (reply ++ fragment) h' in
            if recognizes (reply ++ fragment) expected then (Result.ok recognized, h') else rest
      ]

  unfoldable pub read_bounded_reply : ℕ → H → Result RusbError BoundedExchangeProbeResult × H
  unfolding read_loop
  read_bounded_reply max_reads h = read_loop max_reads [] h

-- `response[2..declared]`, if the declared length counts its two bytes and is not beyond the end.
abbrev pub device_id : List ℕ → ℕ → Result UsbOpenError (List ℕ)
device_id response declared =
    if leb 2 declared && leb declared (length response)
    then Result.ok (drop 2 (take declared response))
    else Result.err (invalid_device_id_length (length response) (some declared))

unfoldable pub parse_device_id_response : List ℕ → Result UsbOpenError (List ℕ)
parse_device_id_response [] = Result.err (invalid_device_id_length 0 none)
parse_device_id_response (b ∷ []) = Result.err (invalid_device_id_length 1 none)
parse_device_id_response (a ∷ b ∷ bs) = device_id (a ∷ b ∷ bs) (a * 256 + b)
