-- ===== src/Command/Write.antt =====
-- crates/reink-core/src/command.rs: the encoders.
use reink_rust.Base.Bytes.{to_le_bytes}
use reink_rust.Base.{
  List, Result, [], bit_and, bit_or, err, if◌then◌else◌, length, ltb, none, ok, some, ◌%◌, ◌*◌,
  ◌++◌, ◌-◌, ◌/◌, ◌>>=◌, ◌∷◌, ℕ,
}
use reink_rust.Epson.Spec.{AddressWidth, one, two, EpsonSpec}
use reink_rust.Command.Error.{
  CommandError, payload_too_long, address_out_of_range, missing_write_key,
}

-- The two bytes of the command, the size of the payload, and the payload.
unfoldable pub encode_command : ℕ → ℕ → List ℕ → Result CommandError (List ℕ)
encode_command c d payload =
    if ltb (length payload) 65536
    then ok (c ∷ d ∷ (to_le_bytes (length payload) ++ payload))
    else err (payload_too_long (length payload))

-- `((command >> 1) & 0x7f) | ((command << 7) & 0x80)` on a `u8`.
abbrev pub check_byte : ℕ → ℕ
check_byte command = bit_or (bit_and (command / 2) 0x7f) (bit_and (command * 128 % 256) 0x80)

-- The command is "||".
unfoldable pub encode_factory_command : ℕ → ℕ → List ℕ → Result CommandError (List ℕ)
unfolding encode_command
encode_factory_command read_key command payload =
    encode_command b'|' b'|'
      (to_le_bytes read_key ++ (command ∷ (255 - command) ∷ check_byte command ∷ payload))

unfoldable pub encode_address : AddressWidth → ℕ → Result CommandError (List ℕ)
encode_address one address =
    if ltb 255 address then err (address_out_of_range one address) else ok (address ∷ [])
encode_address two address = ok (to_le_bytes address)

unfoldable pub encode_eeprom_read : EpsonSpec → ℕ → Result CommandError (List ℕ)
unfolding encode_address encode_factory_command
encode_eeprom_read spec address = do
  payload ← encode_address spec.read_address_width address
  encode_factory_command spec.read_key b'A' payload

unfoldable pub encode_eeprom_write : EpsonSpec → ℕ → ℕ → Result CommandError (List ℕ)
unfolding encode_address encode_factory_command
encode_eeprom_write spec address value = elim spec.write_key [
  | none ↦ err missing_write_key
  | some write_key ↦ (do
    payload ← encode_address spec.write_address_width address
    encode_factory_command spec.read_key b'B' (payload ++ (value ∷ write_key)))
]
