-- ===== src/Command/Panics.antt =====
-- crates/reink-core/src/command.rs: the slices of `parse_eeprom_read_reply`.
use reink_rust.Base.{
  get_elem?, leb, not, ◌&&◌, if◌then◌else◌, length, suc, zero, ◌≤◌, All, All-drop, Bool, List,
  Option, [], arith, drop, false, none, refl, some, true, ◌+◌, ◌∷◌, ◌≡◌, ℕ,
}
use reink_rust.Epson.Spec.{AddressWidth}
use reink_rust.Base.Text.{find, is_char_boundary}
use reink_rust.Command.Error.{
  ◌>>=◌, CommandError, too_short, no_semicolon, no_marker, EepromReadReply, Parsed, ok, err,
  panicked,
}
use reink_rust.Command.Reply.{
  option_eq, reply_of, or_bad, hex_byte, from_str_radix, decode_hex, parse_record,
  parse_eeprom_read_reply, marker,
}
use reink_rust.Command.RoundTrip.{is_utf8_ascii, IsAscii, not_continuation}

abbrev pub returns : {A : Type 0} → Parsed A → Bool
returns (ok a) = true
returns (err e) = true
returns panicked = false

bind_returns :
    {A B : Type 0} (m : Parsed A) (f : A → Parsed B)
    → returns m ≡ true
    → ((a : A) → returns (f a) ≡ true)
    → returns (m >>= f) ≡ true
bind_returns (ok a) f h k = k a
bind_returns (err e) f h k = refl
bind_returns panicked f h k = cc

checked_returns :
    {A : Type 0} (b c : Bool) (e e' : CommandError) (m : Parsed A)
    → returns m ≡ true
    → returns (if b then err e else if c then err e' else m) ≡ true
checked_returns true c e e' m h = refl
checked_returns false true e e' m h = refl
checked_returns false false e e' m h = h

or_bad-returns : (hex : List ℕ) (o : Option ℕ) → returns (or_bad hex o) ≡ true
or_bad-returns hex none = refl
or_bad-returns hex (some v) = refl

hex_byte-returns :
    (hex : List ℕ) (start a b : ℕ)
    → is_char_boundary hex start ≡ true
    → is_char_boundary hex (start + 2) ≡ true
    → returns (hex_byte hex start a b) ≡ true
hex_byte-returns hex start a b h k = rw (h, k) (or_bad-returns hex (from_str_radix a b))

boundary :
    (hex rest : List ℕ) (c i : ℕ)
    → drop i hex ≡ c ∷ rest
    → IsAscii c
    → i ≤ length hex
    → is_char_boundary hex i ≡ true
unfolding is_char_boundary
boundary hex rest c zero e h k = refl
boundary hex rest c (suc i) e h k = rw (e, not_continuation c h) (ground arith)

decode_hex-returns :
    (a b c d e f : ℕ)
    → IsAscii c
    → IsAscii e
    → returns (decode_hex (a ∷ b ∷ c ∷ d ∷ e ∷ f ∷ [])) ≡ true
unfolding decode_hex
decode_hex-returns a b c d e f hc he =
    let hex : List ℕ = a ∷ b ∷ c ∷ d ∷ e ∷ f ∷ [] in
    let two = boundary hex (d ∷ e ∷ f ∷ []) c 2 refl hc (omega arith) in
    let four = boundary hex (f ∷ []) e 4 refl he (omega arith) in
    bind_returns (hex_byte hex 0 a b) _ (hex_byte-returns hex 0 a b refl two) (λ x.
      bind_returns (hex_byte hex 2 c d) _ (hex_byte-returns hex 2 c d two four) (λ y.
        bind_returns (hex_byte hex 4 e f) _ (hex_byte-returns hex 4 e f four refl) (λ z. refl)))

parse_record-returns :
    (rest : List ℕ) (width : AddressWidth)
    → All IsAscii rest
    → returns (parse_record rest width) ≡ true
unfolding parse_record
parse_record-returns (a ∷ b ∷ c ∷ d ∷ e ∷ f ∷ rest) width v =
    let whole : List ℕ = a ∷ b ∷ c ∷ d ∷ e ∷ f ∷ rest in
    checked_returns {A = EepromReadReply} (not (leb 6 (length whole) && is_char_boundary whole 6))
      (not (option_eq (get_elem? whole 6) b';')) too_short no_semicolon _
      (bind_returns (decode_hex (a ∷ b ∷ c ∷ d ∷ e ∷ f ∷ [])) (λ r. ok (reply_of width r.0 r.1 r.2))
        (decode_hex-returns a b c d e f v.1.1.0 v.1.1.1.1.0) (λ r. refl))
parse_record-returns rest width v = refl

-- A reply of ASCII bytes is parsed without a panic: to a reply or to an error.
pub parse_eeprom_read_reply-returns :
    (response : List ℕ) (width : AddressWidth)
    → All IsAscii response
    → returns (parse_eeprom_read_reply response width) ≡ true
unfolding parse_eeprom_read_reply
parse_eeprom_read_reply-returns response width v =
    rw (is_utf8_ascii response v) (found (find response marker))
  where
    found :
        (o : Option ℕ)
        → returns
            (elim o [ none ↦ err no_marker | some i ↦ parse_record (drop (i + 3) response) width ])
          ≡ true
    found none = refl
    found (some i) =
        parse_record-returns (drop (i + 3) response) width (All-drop IsAscii (i + 3) response v)
