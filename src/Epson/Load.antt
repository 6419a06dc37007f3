-- ===== src/Epson/Load.antt =====
-- crates/reink-core/src/epson.rs: `ModelDatabase`. The TOML parser is a parameter.
use reink_rust.Base.Dict.{Dict, get, insert}
use reink_rust.Base.Text.{chars, text}
use reink_rust.Base.{
  Bool, List, Option, Result, [], collect, err, if◌then◌else◌, leb, length, ltb, map_err, none, ok,
  some, unwrap_or, ◌&&◌, ◌++◌, ◌==◌, ◌>>=◌, ◌>>◌, ◌∷◌, ℕ,
}
use reink_rust.Epson.Spec.{EepromField, EpsonSpec}
use reink_rust.Epson.Raw.{
  non_latin1_write_key, overlapping_read_only_fields, invalid_memory_range,
  invalid_write_key_length, toml, RawSpec, SpecError, width_from_raw, operation_from_raw,
  into_eeprom_field,
}
use reink_rust.Identity.{PrinterIdentity, detected_model}

unfoldable pub latin1_bytes : List ℕ → Result SpecError (List ℕ)
unfolding collect chars
latin1_bytes value =
    collect (λ c. if ltb c 256 then ok c else err non_latin1_write_key) (chars value)

-- The key of a group, and the test of its length.
unfoldable pub load_write_key : Option (List ℕ) → Result SpecError (Option (List ℕ))
unfolding latin1_bytes
load_write_key none = ok none
load_write_key (some key) = latin1_bytes key >>= λ bytes.
    if length bytes == 8 then ok (some bytes) else err (invalid_write_key_length (length bytes))

abbrev pub overlaps : EepromField → EepromField → Bool
overlaps field other = leb field.address other.end_address && leb other.address field.end_address

-- `fields[..index].iter().find(..)`
unfoldable pub find_overlap : EepromField → List EepromField → Option EepromField
find_overlap field [] = none
find_overlap field (other ∷ others) =
    if overlaps field other then some other else find_overlap field others

-- The loop of `validate_read_only_fields`, with the fields before the index.
unfoldable pub validate_from : List EepromField → List EepromField → Result SpecError (Unit {0})
unfolding find_overlap
validate_from earlier [] = ok tt
validate_from earlier (field ∷ fields) = elim (find_overlap field earlier) [
  | some overlap ↦ err (overlapping_read_only_fields overlap.label field.label)
  | none ↦ validate_from (earlier ++ field ∷ []) fields
]

unfoldable pub validate_read_only_fields : List EepromField → Result SpecError (Unit {0})
unfolding validate_from
validate_read_only_fields = validate_from []

abbrev pub check_memory_range : ℕ → ℕ → Result SpecError (Unit {0})
check_memory_range low high = if ltb high low then err (invalid_memory_range low high) else ok tt

-- What a group gives to each of its models.
unfoldable pub load_group : RawSpec → Result SpecError (List ℕ → EpsonSpec)
unfolding width_from_raw load_write_key collect operation_from_raw into_eeprom_field
    validate_read_only_fields
load_group raw = do
  read_address_width ← width_from_raw (text "rlen") raw.read_length
  write_address_width ← width_from_raw (text "wlen") raw.write_length
  check_memory_range raw.memory_low raw.memory_high
  write_key ← load_write_key raw.write_key
  memory_operations ← collect operation_from_raw raw.mem
  read_only_fields ←
      collect (λ field. into_eeprom_field field raw.memory_low raw.memory_high) raw.read_only_fields
  validate_read_only_fields read_only_fields
  ok (λ name. record {
    model = name;
    brand = unwrap_or raw.brand (text "EPSON");
    vendor_id = unwrap_or raw.vendor_id 0x04b8;
    product_id = raw.product_id;
    read_key = raw.rkey;
    write_key = write_key;
    shifted_write_key = raw.shifted_write_key;
    read_address_width = read_address_width;
    write_address_width = write_address_width;
    memory_low = raw.memory_low;
    memory_high = raw.memory_high;
    memory_operations = memory_operations;
    read_only_fields = read_only_fields;
  })

abbrev pub ModelDatabase : Type 0
ModelDatabase = Dict EpsonSpec

unfoldable pub insert_models : ModelDatabase → (List ℕ → EpsonSpec) → List (List ℕ) → ModelDatabase
unfolding insert
insert_models models spec [] = models
insert_models models spec (name ∷ names) = insert_models (insert models name (spec name)) spec names

unfoldable pub load_groups : ModelDatabase → List RawSpec → Result SpecError ModelDatabase
unfolding load_group insert_models
load_groups models [] = ok models
load_groups models (raw ∷ groups) =
    load_group raw >>= λ spec. load_groups (insert_models models spec raw.models) groups

unfoldable pub from_toml :
    (List ℕ → Result (List ℕ) (List RawSpec)) → List ℕ → Result SpecError ModelDatabase
unfolding load_groups
from_toml from_str input = map_err toml (from_str input) >>= λ groups. load_groups [] groups

unfoldable pub resolve_identity : ModelDatabase → PrinterIdentity → Option EpsonSpec
unfolding get detected_model
resolve_identity database identity = elim (detected_model identity) [
  | none ↦ none
  | some name ↦ get database name
]
