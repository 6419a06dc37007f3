-- ===== src/Command/Tests.antt =====
-- Replies that a printer may send, and the parser's theorems at them.
use reink_rust.Base.{[], arith, refl, true, ◌++◌, ◌∷◌, ◌≡◌}
use reink_rust.Base.Text.{is_utf8, find, is_char_boundary}
use reink_rust.Epson.Spec.{two}
use reink_rust.Command.Error.{ok, panicked}
use reink_rust.Command.Reply.{
  from_str_radix, hex_digit, decode_hex, parse_record, parse_eeprom_read_reply, marker,
}
use reink_rust.Command.Panics.{returns, parse_eeprom_read_reply-returns}

parse_eeprom_read_reply-returns_example :
    returns (parse_eeprom_read_reply (marker ++ (48 ∷ 90 ∷ 48 ∷ 48 ∷ 48 ∷ 48 ∷ 59 ∷ [])) two) ≡ true
parse_eeprom_read_reply-returns_example =
    parse_eeprom_read_reply-returns (marker ++ (48 ∷ 90 ∷ 48 ∷ 48 ∷ 48 ∷ 48 ∷ 59 ∷ [])) two
      (ground arith)

-- "EE:0é000;" is UTF-8, and a digit pair ends inside the character: the slice panics.
slice_in_character :
    parse_eeprom_read_reply (marker ++ (48 ∷ 0xc3 ∷ 0xa9 ∷ 48 ∷ 48 ∷ 48 ∷ 59 ∷ [])) two ≡ panicked
unfolding parse_eeprom_read_reply parse_record decode_hex from_str_radix hex_digit is_utf8 find
    is_char_boundary
slice_in_character = refl

-- "EE:+1+2+3;" is read as the bytes 1, 2 and 3.
plus_signs :
    parse_eeprom_read_reply (marker ++ (43 ∷ 49 ∷ 43 ∷ 50 ∷ 43 ∷ 51 ∷ 59 ∷ [])) two
    ≡ ok (record { address = 0x0102; value = 3 })
unfolding parse_eeprom_read_reply parse_record decode_hex from_str_radix hex_digit is_utf8 find
    is_char_boundary
plus_signs = refl
