-- ===== src/Controller/Tests.antt =====
-- A printer that keeps its promises, and the theorems of the controller at it.
use reink_rust.Controller.Device.{waste_counter, printer, test_spec, device, cell}
use reink_rust.Identity.Print.{described, print, Entry}
use reink_rust.Identity.{field, PrinterIdentity}
use reink_rust.Controller.Identity.{read_identity-print, read_identity, tagged}
use reink_rust.Base.{true, List, Result, [], arith, refl, ◌+◌, ◌∷◌, ◌≡◌, ℕ}
use reink_rust.Platform.Control.{ControlChannel}
use reink_rust.Epson.Spec.{
  waste, description_fragment, counter_reset, merged_operation, merge_operations, merge_pairs,
  merge_value, position_of, replace_at,
}
use reink_rust.Command.{
  encode_eeprom_read, encode_eeprom_write, parse_eeprom_read_reply, encode_command,
  encode_factory_command, encode_address,
}
use reink_rust.Command.Reply.{parse_record, decode_hex, from_str_radix, hex_digit}
use reink_rust.Controller.Defs.{Outcome, has_ok, find_original, EepromWriteOptions, Updates}
use reink_rust.Controller.Ops.{
  reset_waste, write_operation, write_eeprom_with_originals, write_loop, write_eeprom_address,
  read_eeprom, read_eeprom_address, check_originals, missing_original, write_eeprom,
}
use reink_rust.Base.Text.{
  is_ascii, text, to_ascii_lowercase, contains, find, starts_with, is_utf8, is_char_boundary,
}
use reink_rust.Epson.Merge.{after_operations}
use reink_rust.Controller.Reset.{reset_waste-writes}
use reink_rust.Controller.Atomic.{AllOrNothing, write_eeprom-AllOrNothing}

abbrev updates : Updates
updates = (12, 0x42) ∷ (13, 7) ∷ (12, 0x43) ∷ []

abbrev safely : EepromWriteOptions
safely = record { verify_read_back = true; atomic = true }

write_eeprom-AllOrNothing_example :
    AllOrNothing device test_spec printer updates
      (cell (λ a. a))
      (write_eeprom device test_spec updates safely (λ a. a)).0
      (write_eeprom device test_spec updates safely (λ a. a)).1
write_eeprom-AllOrNothing_example =
    write_eeprom-AllOrNothing device test_spec printer updates safely (λ a. a) refl refl

reset_done : (reset_waste device test_spec safely (λ a. 7)).0 ≡ Outcome.ok tt
unfolding reset_waste counter_reset merged_operation merge_operations merge_pairs merge_value
    position_of replace_at to_ascii_lowercase contains find starts_with write_operation write_eeprom
    write_eeprom_with_originals write_loop write_eeprom_address read_eeprom read_eeprom_address
    check_originals missing_original find_original has_ok encode_eeprom_read encode_eeprom_write
    encode_address encode_factory_command encode_command parse_eeprom_read_reply parse_record
    decode_hex from_str_radix hex_digit is_utf8 is_char_boundary
reset_done = refl

reset_waste-writes_example :
    cell (reset_waste device test_spec safely (λ a. 7)).1 13
    ≡ after_operations (to_ascii_lowercase (description_fragment waste)) (waste_counter ∷ []) 13 7
reset_waste-writes_example =
    reset_waste-writes device test_spec printer safely (λ a. 7) refl refl reset_done 13

abbrev c90 : List Entry
c90 = (text "MFG", text "EPSON") ∷ (text "MDL", text "C90 Series") ∷ []

-- A printer that answers every request with its identity.
abbrev identified : ControlChannel
identified = record {
  Channel = ℕ;
  request = λ count bytes. (Result.ok (tagged (13 ∷ 10 ∷ []) (print c90)), count + 1);
}

read_identity-print_example :
    (found : PrinterIdentity) × (read_identity identified 0 ≡ (Outcome.ok found, 1))
    × ((name : List ℕ) → field found name ≡ described c90 name)
unfolding is_ascii
read_identity-print_example =
    read_identity-print identified 0 1 (13 ∷ 10 ∷ []) c90 (ground arith) (ground arith)
      (ground arith) refl
