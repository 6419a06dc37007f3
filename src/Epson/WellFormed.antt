-- ===== src/Epson/WellFormed.antt =====
-- crates/reink-core/src/epson.rs: what the checks of a loaded specification amount to.
use reink_rust.Base.Text.{is_empty}
use reink_rust.Base.{All, List, Option, [], false, length, none, some, true, ◌≡◌, ◌≤◌, ℕ}
use reink_rust.Base.Bytes.{IsByte}
use reink_rust.Epson.Spec.{MemoryOperation, EepromField, EpsonSpec}
use reink_rust.Epson.Raw.{fixed_byte_len, field_byte_len}
use reink_rust.Epson.Fields.{AllDisjoint}

-- Declared values are one for each address; without a declaration there are none.
pub record IsOperation (operation : MemoryOperation) : Type 0 where
  pub addresses_ne_nil : is_empty operation.addresses ≡ false
  pub declared_length :
      operation.reset_values_declared ≡ true
      → length operation.reset_values ≡ length operation.addresses
  pub undeclared_nil : operation.reset_values_declared ≡ false → operation.reset_values ≡ []

pub record IsField (memory_low memory_high : ℕ) (field : EepromField) : Type 0 where
  pub ordered : field.address ≤ field.end_address
  pub above_low : memory_low ≤ field.address
  pub below_high : field.end_address ≤ memory_high
  pub encoded_length : (n : ℕ) → fixed_byte_len field.encoding ≡ some n → field_byte_len field ≡ n

abbrev pub IsWriteKey : Option (List ℕ) → Type 0
IsWriteKey none = Unit
IsWriteKey (some key) = All IsByte key × (length key ≡ 8)

pub record IsSpec (spec : EpsonSpec) : Type 0 where
  pub range : spec.memory_low ≤ spec.memory_high
  pub key : IsWriteKey spec.write_key
  pub operations : All IsOperation spec.memory_operations
  pub fields : All (IsField spec.memory_low spec.memory_high) spec.read_only_fields
  pub disjoint : AllDisjoint spec.read_only_fields
