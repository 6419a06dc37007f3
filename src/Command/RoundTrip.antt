-- ===== src/Command/RoundTrip.antt =====
-- crates/reink-core/src/command.rs: `parse_eeprom_read_reply` on what a printer sends, which is a text,
-- the marker, and three bytes in hexadecimal.
use reink_rust.Base.{
  ◌∙◌, All-append, drop, leb, suc, ==_iff, All, List, Option, [], ap, arith, false, if◌then◌else◌,
  length, ltb, lt→ltb, none, refl, some, take, true, ◌%◌, ◌&&◌, ◌++◌, ◌+◌, ◌/◌, ◌<◌, ◌==◌, ◌∷◌, ◌≡◌,
  ◌≢◌, ℕ,
}
use reink_rust.Epson.Spec.{AddressWidth}
use reink_rust.Base.Text.{is_utf8, find, starts_with, is_char_boundary, is_continuation}
use reink_rust.Base.Bytes.{IsByte, holds_below, holds_below-at}
use reink_rust.Command.Error.{ok}
use reink_rust.Command.Reply.{
  hex_digit, from_str_radix, decode_hex, parse_record, parse_eeprom_read_reply, marker, reply_of,
  option_eq,
}

-- The digit of a number below sixteen, and the two digits of a byte.
abbrev pub hex_char : ℕ → ℕ
hex_char d = if ltb d 10 then d + b'0' else d + 55

abbrev pub high : ℕ → ℕ
high v = hex_char (v / 16)

abbrev pub low : ℕ → ℕ
low v = hex_char (v % 16)

abbrev pub record_of : ℕ → ℕ → ℕ → List ℕ → List ℕ
record_of x y z rest = high x ∷ low x ∷ high y ∷ low y ∷ high z ∷ low z ∷ b';' ∷ rest

digits_table : holds_below (λ v. option_eq (from_str_radix (high v) (low v)) v) 256 ≡ true
unfolding holds_below from_str_radix hex_digit
digits_table = refl

option_eq-some : (o : Option ℕ) (v : ℕ) → option_eq o v ≡ true → o ≡ some v
option_eq-some none v h = cc
option_eq-some (some a) v h = ap some ((==_iff a v).0 h)

digits : (v : ℕ) → IsByte v → from_str_radix (high v) (low v) ≡ some v
digits v h =
    option_eq-some _ v
      (holds_below-at (λ v. option_eq (from_str_radix (high v) (low v)) v) v h digits_table)

plain_table : holds_below (λ v. ltb (high v) 128 && ltb (low v) 128) 256 ≡ true
unfolding holds_below
plain_table = refl

plain : (v : ℕ) → IsByte v → (high v < 128) × (low v < 128)
plain v h =
    ground (arith, holds_below-at (λ v. ltb (high v) 128 && ltb (low v) 128) v h plain_table)

abbrev pub IsAscii : ℕ → Type 0
IsAscii c = c < 128

pub is_utf8_ascii : (bytes : List ℕ) → All IsAscii bytes → is_utf8 bytes ≡ true
unfolding is_utf8
is_utf8_ascii [] v = refl
is_utf8_ascii (a ∷ []) v = lt→ltb a 128 v.0
is_utf8_ascii (a ∷ b ∷ []) v = rw (lt→ltb a 128 v.0, is_utf8_ascii (b ∷ []) v.1)
is_utf8_ascii (a ∷ b ∷ c ∷ []) v = rw (lt→ltb a 128 v.0, is_utf8_ascii (b ∷ c ∷ []) v.1)
is_utf8_ascii (a ∷ b ∷ c ∷ d ∷ rest) v = rw (lt→ltb a 128 v.0, is_utf8_ascii (b ∷ c ∷ d ∷ rest) v.1)

-- A text before the marker: ASCII without a colon.
abbrev pub IsLead : ℕ → Type 0
IsLead c = (c < 128) × (c ≢ b':')

colon : (c : ℕ) → c ≢ b':' → (c == b':') ≡ false
colon c h = ground arith

not_yet :
    (c : ℕ) (lead rest : List ℕ)
    → All IsLead lead
    → starts_with (c ∷ (lead ++ (marker ++ rest))) marker ≡ false
unfolding starts_with
not_yet c [] rest v = ground arith
not_yet c (d ∷ []) rest v = ground arith
not_yet c (d ∷ e ∷ lead) rest v = ground arith

find-marker :
    (lead rest : List ℕ)
    → All IsLead lead
    → find (lead ++ (marker ++ rest)) marker ≡ some (length lead)
unfolding find
find-marker [] rest v = refl
find-marker (c ∷ lead) rest v = rw (not_yet c lead rest v.1, find-marker lead rest v.1)

pub not_continuation : (c : ℕ) → IsAscii c → is_continuation c ≡ false
not_continuation c h = ground arith

decode_hex-digits :
    (x y z : ℕ)
    → IsByte x
    → IsByte y
    → IsByte z
    → decode_hex (take 6 (record_of x y z [])) ≡ ok (x, y, z)
unfolding decode_hex is_char_boundary
decode_hex-digits x y z hx hy hz = rw (
  not_continuation _ (plain y hy).0,
  not_continuation _ (plain z hz).0,
  digits x hx,
  digits y hy,
  digits z hz,
)

six_first : (n : ℕ) → leb 6 (suc (suc (suc (suc (suc (suc (suc n))))))) ≡ true
six_first n = ground arith

behind : (lead rest : List ℕ) → drop (length lead + 3) (lead ++ (marker ++ rest)) ≡ rest
behind [] rest = refl
behind (c ∷ lead) rest =
    let next : suc (length lead) + 3 ≡ suc (length lead + 3) = omega arith in
    ap (λ n. drop n (c ∷ (lead ++ (marker ++ rest)))) next ∙ behind lead rest

lead-IsAscii : (lead : List ℕ) → All IsLead lead → All IsAscii lead
lead-IsAscii [] v = tt
lead-IsAscii (c ∷ lead) v = (v.0.0, lead-IsAscii lead v.1)

All-IsAscii :
    (lead rest : List ℕ) (x y z : ℕ)
    → All IsLead lead
    → All IsAscii rest
    → IsByte x
    → IsByte y
    → IsByte z
    → All IsAscii (lead ++ (marker ++ record_of x y z rest))
All-IsAscii lead rest x y z vl vr hx hy hz = All-append IsAscii lead _ (lead-IsAscii lead vl) (
  omega arith,
  (
    omega arith,
    (
      omega arith,
      (
        (plain x hx).0,
        (
          (plain x hx).1,
          ((plain y hy).0, ((plain y hy).1, ((plain z hz).0, ((plain z hz).1, (omega arith, vr))))),
        ),
      ),
    ),
  ),
)

parse_record-record_of :
    (x y z : ℕ) (rest : List ℕ) (width : AddressWidth)
    → IsByte x
    → IsByte y
    → IsByte z
    → parse_record (record_of x y z rest) width ≡ ok (reply_of width x y z)
unfolding parse_record is_char_boundary
parse_record-record_of x y z rest width hx hy hz =
    rw (six_first (length rest), decode_hex-digits x y z hx hy hz) refl

pub parse_eeprom_read_reply-record_of :
    (lead rest : List ℕ) (x y z : ℕ) (width : AddressWidth)
    → All IsLead lead
    → All IsAscii rest
    → IsByte x
    → IsByte y
    → IsByte z
    → parse_eeprom_read_reply (lead ++ (marker ++ record_of x y z rest)) width
      ≡ ok (reply_of width x y z)
unfolding parse_eeprom_read_reply
parse_eeprom_read_reply-record_of lead rest x y z width vl vr hx hy hz =
    rw
      (
        is_utf8_ascii _ (All-IsAscii lead rest x y z vl vr hx hy hz),
        find-marker lead (record_of x y z rest) vl,
        behind lead (record_of x y z rest),
      )
      (parse_record-record_of x y z rest width hx hy hz)
