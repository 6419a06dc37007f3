-- ===== src/Command.antt =====
-- crates/reink-core/src/command.rs: Epson commands and the EEPROM read reply.
mod Error
pub mod Write
pub mod Reply
pub mod RoundTrip
pub mod Panics
mod Tests
use reink_rust.Base.{ℕ}
pub use Error.{
  CommandError, payload_too_long, address_out_of_range, missing_write_key, not_utf8, no_marker,
  too_short, no_semicolon, bad_hex, EepromReadReply, Parsed, ok, err, panicked,
}
unfoldable pub use Write.{
  encode_command, encode_factory_command, encode_address, encode_eeprom_read, encode_eeprom_write,
}
unfoldable pub use Reply.{hex_digit, from_str_radix, decode_hex, parse_eeprom_read_reply}
