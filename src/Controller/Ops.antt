-- ===== src/Controller/Ops.antt =====
-- crates/reink-core/src/controller.rs: the methods of `EpsonController`.
use reink_rust.Base.{Bool, List, Option, [], if◌then◌else◌, length, none, not, some, ◌==◌, ◌∷◌, ℕ}
use reink_rust.Platform.Control.{ControlChannel}
use reink_rust.Epson.Spec.{EpsonSpec, MemoryOperation, waste, counter_reset}
use reink_rust.Command.{
  EepromReadReply, encode_command, encode_eeprom_read, encode_eeprom_write, parse_eeprom_read_reply,
}
use reink_rust.Controller.Defs.{
  EepromWriteOptions, AccessError, address_mismatch, write_rejected, verification_failed,
  EpsonError, access, atomic_write_failed, missing_atomic_original, operation_has_no_declared_reset,
  operation_reset_length_mismatch, operation_unavailable, ok, err, panicked, Updates, has_ok,
  find_original, has_value, M, ◌>>=◌, pure, fail, send_request, lift_command, lift_parsed,
}

-- The first update without an original.
unfoldable pub missing_original : Updates → Updates → Option ℕ
missing_original originals [] = none
missing_original originals ((a, v) ∷ updates) =
    if has_value (find_original originals a) then missing_original originals updates else some a

-- `updates.first().map_or(0, ..)`
abbrev first_address : Updates → ℕ
first_address [] = 0
first_address ((a, v) ∷ updates) = a

abbrev pub reply_pairs : List EepromReadReply → Updates
reply_pairs [] = []
reply_pairs (r ∷ rs) = (r.address, r.value) ∷ reply_pairs rs

abbrev pub update_addresses : Updates → List ℕ
update_addresses [] = []
update_addresses ((a, v) ∷ updates) = a ∷ update_addresses updates

abbrev pub zip_updates : List ℕ → List ℕ → Updates
zip_updates (a ∷ as') (v ∷ vs) = (a, v) ∷ zip_updates as' vs
zip_updates _ _ = []

unfoldable pub check_originals : Updates → Option Updates → EepromWriteOptions → Option EpsonError
check_originals updates (some originals) options = elim (missing_original originals updates) [
  | none ↦ none
  | some a ↦ some (missing_atomic_original a)
]
check_originals updates none options =
    if options.atomic then some (missing_atomic_original (first_address updates)) else none

abbrev pub with_access : {S A : Type 0} → M S AccessError A → M S EpsonError A
with_access m s = elim (m s).0 [
  | ok a ↦ (ok a, (m s).1)
  | err e ↦ (err (access e), (m s).1)
  | panicked ↦ (panicked, (m s).1)
]

module _ (C : ControlChannel) (spec : EpsonSpec) where
  unfoldable pub read_status : M C.Channel AccessError (List ℕ)
  read_status = do bytes ← lift_command (encode_command b's' b't' (1 ∷ [])); send_request C bytes

  unfoldable pub read_eeprom_address : ℕ → M C.Channel AccessError EepromReadReply
  read_eeprom_address address = do
    bytes ← lift_command (encode_eeprom_read spec address)
    response ← send_request C bytes
    reply ← lift_parsed (parse_eeprom_read_reply response spec.read_address_width)
    if reply.address == address then pure reply else fail (address_mismatch address reply.address)

  unfoldable pub write_eeprom_address : ℕ → ℕ → Bool → M C.Channel AccessError (Unit {0})
  write_eeprom_address address value verify_read_back = do
    bytes ← lift_command (encode_eeprom_write spec address value)
    response ← send_request C bytes
    if not (has_ok response)
        then fail (write_rejected address)
        else if verify_read_back
        then (do
          reply ← read_eeprom_address address
          if reply.value == value
              then pure tt
              else fail (verification_failed address value reply.value))
        else pure tt

  unfoldable pub read_eeprom : List ℕ → M C.Channel AccessError (List EepromReadReply)
  read_eeprom [] s = (ok [], s)
  read_eeprom (a ∷ as') s =
      (do reply ← read_eeprom_address a; replies ← read_eeprom as'; pure (reply ∷ replies)) s

  -- The restoring writes, over the attempted addresses from the last one back. It cannot fail: each
  -- failed write is noted, and an address without an original is passed over.
  unfoldable pub roll_back : Updates → Bool → List ℕ → M C.Channel ⊥ (List (ℕ × AccessError))
  roll_back originals verify [] s = (ok [], s)
  roll_back originals verify (a ∷ as') s = elim (find_original originals a) [
    | none ↦ roll_back originals verify as' s
    | some v ↦ elim (write_eeprom_address a v verify s).0 [
      | ok u ↦ roll_back originals verify as' (write_eeprom_address a v verify s).1
      | err e ↦
          (do rest ← roll_back originals verify as'; pure ((a, e) ∷ rest))
            (write_eeprom_address a v verify s).1
      | panicked ↦ (panicked, (write_eeprom_address a v verify s).1)
    ]
  ]

  -- `originals.map(..).unwrap_or_default()`, and the error of the failed write.
  unfoldable pub fail_write :
      Option Updates → Bool → ℕ → AccessError → List ℕ → M C.Channel EpsonError (Unit {0})
  fail_write none verify address reason attempted s = fail (atomic_write_failed address reason []) s
  fail_write (some originals) verify address reason attempted s =
      elim (roll_back originals verify attempted s).0 [
        | ok rollback_errors ↦ (
          err (atomic_write_failed address reason rollback_errors),
          (roll_back originals verify attempted s).1,
        )
        | err never ↦ absurd never
        | panicked ↦ (panicked, (roll_back originals verify attempted s).1)
      ]

  -- The loop over the updates. `attempted` holds the last address first, as `rev()` gives them.
  unfoldable pub write_loop :
      Option Updates → Bool → List ℕ → Updates → M C.Channel EpsonError (Unit {0})
  write_loop originals verify attempted [] s = (ok tt, s)
  write_loop originals verify attempted ((a, v) ∷ updates) s =
      elim (write_eeprom_address a v verify s).0 [
        | ok u ↦
            write_loop originals verify (a ∷ attempted) updates
              (write_eeprom_address a v verify s).1
        | err e ↦
            fail_write originals verify a e (a ∷ attempted) (write_eeprom_address a v verify s).1
        | panicked ↦ (panicked, (write_eeprom_address a v verify s).1)
      ]

  unfoldable pub write_eeprom_with_originals :
      Updates → Option Updates → EepromWriteOptions → M C.Channel EpsonError (Unit {0})
  write_eeprom_with_originals updates originals options s =
      elim (check_originals updates originals options) [
        | some e ↦ (err e, s)
        | none ↦ write_loop originals options.verify_read_back [] updates s
      ]

  unfoldable pub write_eeprom : Updates → EepromWriteOptions → M C.Channel EpsonError (Unit {0})
  write_eeprom updates options =
      if options.atomic
      then (do
        replies ← with_access (read_eeprom (update_addresses updates))
        write_eeprom_with_originals updates (some (reply_pairs replies)) options)
      else write_eeprom_with_originals updates none options

  unfoldable pub write_operation :
      MemoryOperation → EepromWriteOptions → M C.Channel EpsonError (Unit {0})
  write_operation operation options =
      if not operation.reset_values_declared
      then fail (operation_has_no_declared_reset operation.description)
      else if not (length operation.addresses == length operation.reset_values)
      then fail (
          operation_reset_length_mismatch operation.description (length operation.addresses)
            (length operation.reset_values))
      else write_eeprom (zip_updates operation.addresses operation.reset_values) options

  unfoldable pub reset_waste : EepromWriteOptions → M C.Channel EpsonError (Unit {0})
  reset_waste options = elim (counter_reset spec waste) [
    | none ↦ fail operation_unavailable
    | some operation ↦ write_operation operation options
  ]
