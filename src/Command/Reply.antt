-- ===== src/Command/Reply.antt =====
-- crates/reink-core/src/command.rs: `parse_eeprom_read_reply`. A response is a list of bytes.
use reink_rust.Base.Bytes.{from_be_bytes}
use reink_rust.Base.Text.{find, is_char_boundary, is_utf8, within}
use reink_rust.Base.{
  Bool, List, Option, [], drop, false, get_elem?, if◌then◌else◌, leb, length, none, not, some, take,
  ◌&&◌, ◌*◌, ◌+◌, ◌-◌, ◌==◌, ◌∷◌, ℕ,
}
use reink_rust.Epson.Spec.{AddressWidth, one, two}
use reink_rust.Command.Error.{
  not_utf8, no_marker, too_short, no_semicolon, bad_hex, EepromReadReply, Parsed, ok, err, panicked,
  ◌>>=◌,
}

-- `char::to_digit(16)`
unfoldable pub hex_digit : ℕ → Option ℕ
hex_digit c =
    if within b'0' b'9' c
    then some (c - b'0')
    else if within b'A' b'F' c
    then some (c - b'A' + 10)
    else if within b'a' b'f' c
    then some (c - b'a' + 10)
    else none

abbrev two_digits : Option ℕ → Option ℕ → Option ℕ
two_digits (some h) (some l) = some (h * 16 + l)
two_digits _ _ = none

-- `u8::from_str_radix(_, 16)` on two bytes: a leading plus sign is accepted.
unfoldable pub from_str_radix : ℕ → ℕ → Option ℕ
unfolding hex_digit
from_str_radix a b = if a == b'+' then hex_digit b else two_digits (hex_digit a) (hex_digit b)

abbrev pub or_bad : List ℕ → Option ℕ → Parsed ℕ
or_bad hex none = err (bad_hex hex)
or_bad hex (some v) = ok v

-- `&hex[start..start + 2]` panics if it would cut a character, at its start or at its end.
abbrev pub hex_byte : List ℕ → ℕ → ℕ → ℕ → Parsed ℕ
hex_byte hex start a b =
    if is_char_boundary hex start && is_char_boundary hex (start + 2)
    then or_bad hex (from_str_radix a b)
    else panicked

-- `get(hex_start..hex_end)` gives six bytes.
unfoldable pub decode_hex : List ℕ → Parsed (ℕ × ℕ × ℕ)
unfolding from_str_radix is_char_boundary
decode_hex (a ∷ b ∷ c ∷ d ∷ e ∷ f ∷ []) = do
  let hex = a ∷ b ∷ c ∷ d ∷ e ∷ f ∷ []
  x ← hex_byte hex 0 a b
  y ← hex_byte hex 2 c d
  z ← hex_byte hex 4 e f
  ok (x, y, z)
decode_hex hex = panicked

-- `is_none_or(|character| *character != b)` denied.
abbrev pub option_eq : Option ℕ → ℕ → Bool
option_eq none b = false
option_eq (some a) b = a == b

abbrev pub reply_of : AddressWidth → ℕ → ℕ → ℕ → EepromReadReply
reply_of one x y z = record { address = x; value = y }
reply_of two x y z = record { address = from_be_bytes x y; value = z }

-- The marker is "EE:".
abbrev pub marker : List ℕ
marker = b'E' ∷ b'E' ∷ b':' ∷ []

-- The part behind the marker, `hex_start` on. What precedes the marker moves no boundary.
unfoldable pub parse_record : List ℕ → AddressWidth → Parsed EepromReadReply
unfolding decode_hex is_char_boundary
parse_record rest width =
    if not (leb 6 (length rest) && is_char_boundary rest 6)
    then err too_short
    else if not (option_eq (get_elem? rest 6) b';')
    then err no_semicolon
    else (do (x, y, z) ← decode_hex (take 6 rest); ok (reply_of width x y z))

unfoldable pub parse_eeprom_read_reply : List ℕ → AddressWidth → Parsed EepromReadReply
unfolding parse_record is_utf8 find
parse_eeprom_read_reply response width =
    if not (is_utf8 response) then err not_utf8 else elim (find response marker) [
      | none ↦ err no_marker
      | some i ↦ parse_record (drop (i + 3) response) width
    ]
