-- ===== src/Epson/Raw.antt =====
-- crates/reink-core/src/epson.rs: the records that the TOML parser fills, and the checks that turn
-- each into its counterpart in the specification.
use reink_rust.Base.Text.{is_empty, same, text}
use reink_rust.Base.{
  Bool, List, Option, Result, err, if◌then◌else◌, leb, length, ltb, none, not, ok, some, ◌&&◌, ◌+◌,
  ◌-◌, ◌==◌, ◌>>=◌, ◌>>◌, ◌||◌, ℕ,
}
use reink_rust.Epson.Spec.{
  AddressWidth, MemoryOperation, EepromField, EepromFieldEncoding, EepromFieldConfidence, u8,
  u16_le, u32_le, ascii, raw_bytes, confirmed, strongly_related, related_unknown,
}

pub record RawMemoryOperation : Type 0 where
  pub addr : List ℕ
  pub desc : List ℕ
  pub reset : List ℕ
  pub min : Option ℕ

pub record RawEepromField : Type 0 where
  pub address : Option ℕ
  pub range : Option (ℕ × ℕ)
  pub label : List ℕ
  pub encoding : List ℕ
  pub confidence : List ℕ
  pub evidence : List ℕ
  pub sensitive : Bool

pub record RawSpec : Type 0 where
  pub brand : Option (List ℕ)
  pub vendor_id : Option ℕ
  pub product_id : Option ℕ
  pub rkey : ℕ
  pub write_key : Option (List ℕ)
  pub shifted_write_key : Option (List ℕ)
  pub read_length : ℕ
  pub write_length : ℕ
  pub memory_low : ℕ
  pub memory_high : ℕ
  pub mem : List RawMemoryOperation
  pub read_only_fields : List RawEepromField
  pub models : List (List ℕ)

-- An error of the TOML parser is its message.
pub data SpecError : Type 0 where
  toml : (message : List ℕ) → SpecError
  invalid_address_width : (field : List ℕ) (value : ℕ) → SpecError
  invalid_memory_range : (low high : ℕ) → SpecError
  invalid_write_key_length : (length : ℕ) → SpecError
  non_latin1_write_key : SpecError
  empty_memory_operation : (description : List ℕ) → SpecError
  reset_length_mismatch : (description : List ℕ) (addresses reset_values : ℕ) → SpecError
  invalid_read_only_field_location : (label : List ℕ) → SpecError
  invalid_read_only_field_range : (label : List ℕ) (address end_address : ℕ) → SpecError
  read_only_field_outside_memory_range :
      (label : List ℕ) (address end_address memory_low memory_high : ℕ) → SpecError
  invalid_read_only_field_encoding : (label encoding : List ℕ) → SpecError
  invalid_read_only_field_confidence : (label confidence : List ℕ) → SpecError
  read_only_field_length_mismatch :
      (label : List ℕ) (encoding : EepromFieldEncoding) (byte_len : ℕ) → SpecError
  overlapping_read_only_fields : (first second : List ℕ) → SpecError

abbrev pub fixed_byte_len : EepromFieldEncoding → Option ℕ
fixed_byte_len u8 = some 1
fixed_byte_len u16_le = some 2
fixed_byte_len u32_le = some 4
fixed_byte_len ascii = none
fixed_byte_len raw_bytes = none

-- `EepromField::byte_len`
abbrev pub field_byte_len : EepromField → ℕ
field_byte_len field = field.end_address - field.address + 1

abbrev pub has_declared_reset_values : MemoryOperation → Bool
has_declared_reset_values operation = operation.reset_values_declared

-- `AddressWidth::from_raw`
unfoldable pub width_from_raw : List ℕ → ℕ → Result SpecError AddressWidth
width_from_raw field value =
    if value == 1
    then ok AddressWidth.one
    else if value == 2
    then ok AddressWidth.two
    else err (invalid_address_width field value)

-- `EepromFieldEncoding::from_raw`
unfoldable pub encoding_from_raw : List ℕ → List ℕ → Result SpecError EepromFieldEncoding
unfolding same
encoding_from_raw label value =
    if same value (text "u8")
    then ok u8
    else if same value (text "u16le")
    then ok u16_le
    else if same value (text "u32le")
    then ok u32_le
    else if same value (text "ascii")
    then ok ascii
    else if same value (text "raw")
    then ok raw_bytes
    else err (invalid_read_only_field_encoding label value)

-- `EepromFieldConfidence::from_raw`
unfoldable pub confidence_from_raw : List ℕ → List ℕ → Result SpecError EepromFieldConfidence
unfolding same
confidence_from_raw label value =
    if same value (text "confirmed")
    then ok confirmed
    else if same value (text "strongly-related")
    then ok strongly_related
    else if same value (text "related-unknown")
    then ok related_unknown
    else err (invalid_read_only_field_confidence label value)

-- `MemoryOperation::try_from`
unfoldable pub operation_from_raw : RawMemoryOperation → Result SpecError MemoryOperation
operation_from_raw raw =
    if is_empty raw.addr
    then err (empty_memory_operation raw.desc)
    else if not (is_empty raw.reset) && not (length raw.reset == length raw.addr)
    then err (reset_length_mismatch raw.desc (length raw.addr) (length raw.reset))
    else ok (record {
      description = raw.desc;
      addresses = raw.addr;
      reset_values = raw.reset;
      reset_values_declared = not (is_empty raw.reset);
      minimum = raw.min;
    })

-- The `match` on the address and the range of a field.
unfoldable pub field_location : List ℕ → Option ℕ → Option (ℕ × ℕ) → Result SpecError (ℕ × ℕ)
field_location label (some address) none = ok (address, address)
field_location label none (some (address, end_address)) =
    if leb address end_address
    then ok (address, end_address)
    else err (invalid_read_only_field_range label address end_address)
field_location label none none = err (invalid_read_only_field_location label)
field_location label (some _) (some _) = err (invalid_read_only_field_location label)

abbrev pub check_location : List ℕ → ℕ → ℕ → ℕ → ℕ → Result SpecError (Unit {0})
check_location label address end_address memory_low memory_high =
    if ltb address memory_low || ltb memory_high end_address
    then err (read_only_field_outside_memory_range label address end_address memory_low memory_high)
    else ok tt

abbrev pub check_length : List ℕ → EepromFieldEncoding → ℕ → Option ℕ → Result SpecError (Unit {0})
check_length label encoding byte_len none = ok tt
check_length label encoding byte_len (some expected) =
    if byte_len == expected
    then ok tt
    else err (read_only_field_length_mismatch label encoding byte_len)

-- `RawEepromField::into_eeprom_field`
unfoldable pub into_eeprom_field : RawEepromField → ℕ → ℕ → Result SpecError EepromField
unfolding field_location encoding_from_raw confidence_from_raw
into_eeprom_field raw memory_low memory_high = do
  (address, end_address) ← field_location raw.label raw.address raw.range
  check_location raw.label address end_address memory_low memory_high
  encoding ← encoding_from_raw raw.label raw.encoding
  check_length raw.label encoding (end_address - address + 1) (fixed_byte_len encoding)
  confidence ← confidence_from_raw raw.label raw.confidence
  ok (record {
    address = address;
    end_address = end_address;
    label = raw.label;
    encoding = encoding;
    confidence = confidence;
    evidence_note = raw.evidence;
    sensitive = raw.sensitive;
  })
