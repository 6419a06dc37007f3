-- ===== src/Epson/Spec.antt =====
-- crates/reink-core/src/epson.rs: the model specification, and the merged reset operations. Text is
-- the list of its UTF-8 bytes.
use reink_rust.Base.{
  Bool, List, Option, [], if◌then◌else◌, none, some, suc, true, zero, ◌&&◌, ◌++◌, ◌==◌, ◌∷◌, ℕ,
}
use reink_rust.Base.Text.{contains, to_ascii_lowercase}

pub data AddressWidth : Type 0 where
  one two : AddressWidth

abbrev pub byte_len : AddressWidth → ℕ
byte_len one = 1
byte_len two = 2

pub record MemoryOperation : Type 0 where
  pub description : List ℕ
  pub addresses : List ℕ
  pub reset_values : List ℕ
  pub reset_values_declared : Bool
  pub minimum : Option ℕ

pub data EepromFieldEncoding : Type 0 where
  u8 u16_le u32_le ascii raw_bytes : EepromFieldEncoding

pub data EepromFieldConfidence : Type 0 where
  confirmed strongly_related related_unknown : EepromFieldConfidence

pub record EepromField : Type 0 where
  pub address : ℕ
  pub end_address : ℕ
  pub label : List ℕ
  pub encoding : EepromFieldEncoding
  pub confidence : EepromFieldConfidence
  pub evidence_note : List ℕ
  pub sensitive : Bool

pub data CounterResetTarget : Type 0 where
  waste platen_pad : CounterResetTarget

pub record EpsonSpec : Type 0 where
  pub model : List ℕ
  pub brand : List ℕ
  pub vendor_id : ℕ
  pub product_id : Option ℕ
  pub read_key : ℕ
  pub write_key : Option (List ℕ)
  pub shifted_write_key : Option (List ℕ)
  pub read_address_width : AddressWidth
  pub write_address_width : AddressWidth
  pub memory_low : ℕ
  pub memory_high : ℕ
  pub memory_operations : List MemoryOperation
  pub read_only_fields : List EepromField

-- `address_positions.get(&address)`: the position of an address among those merged so far. The map
-- always holds the positions of the list `addresses`.
unfoldable pub position_of : ℕ → List ℕ → Option ℕ
position_of address [] = none
position_of address (a ∷ as') =
    if a == address
    then some 0
    else elim (position_of address as') [ none ↦ none | some i ↦ some (suc i) ]

-- `reset_values[position] = value`
unfoldable pub replace_at : List ℕ → ℕ → ℕ → List ℕ
replace_at [] i v = []
replace_at (x ∷ xs) zero v = v ∷ xs
replace_at (x ∷ xs) (suc i) v = x ∷ replace_at xs i v

-- The two lists that `merged_operation` builds.
pub record Merged : Type 0 where
  pub addresses : List ℕ
  pub reset_values : List ℕ

unfoldable pub merge_value : Merged → ℕ → ℕ → Merged
unfolding position_of replace_at
merge_value m address value = elim (position_of address m.addresses) [
  | none ↦ record {
    addresses = m.addresses ++ address ∷ [];
    reset_values = m.reset_values ++ value ∷ [];
  }
  | some position ↦ record m { reset_values = replace_at m.reset_values position value }
]

-- `operation.addresses.iter().zip(&operation.reset_values)`
unfoldable pub merge_pairs : Merged → List ℕ → List ℕ → Merged
unfolding merge_value
merge_pairs m [] values = m
merge_pairs m (a ∷ as') [] = m
merge_pairs m (a ∷ as') (v ∷ vs) = merge_pairs (merge_value m a v) as' vs

abbrev pub selected : List ℕ → MemoryOperation → Bool
selected fragment operation =
    contains (to_ascii_lowercase operation.description) fragment && operation.reset_values_declared

unfoldable pub merge_operations : Merged → List ℕ → List MemoryOperation → Merged
unfolding merge_pairs
merge_operations m fragment [] = m
merge_operations m fragment (operation ∷ operations) =
    merge_operations
      (if selected fragment operation
        then merge_pairs m operation.addresses operation.reset_values
        else m)
      fragment operations

abbrev pub no_merge : Merged
no_merge = record { addresses = []; reset_values = [] }

-- `format!("All {description_fragment}s")`
abbrev pub all_description : List ℕ → List ℕ
all_description fragment = b'A' ∷ b'l' ∷ b'l' ∷ 32 ∷ (fragment ++ b's' ∷ [])

abbrev pub merged_result : List ℕ → Merged → Option MemoryOperation
merged_result fragment m = elim m.addresses [
  | [] ↦ none
  | a ∷ as' ↦ some (record {
    description = all_description fragment;
    addresses = m.addresses;
    reset_values = m.reset_values;
    reset_values_declared = true;
    minimum = none;
  })
]

unfoldable pub merged_operation : EpsonSpec → List ℕ → Option MemoryOperation
unfolding merge_operations to_ascii_lowercase
merged_operation spec fragment =
    merged_result fragment
      (merge_operations no_merge (to_ascii_lowercase fragment) spec.memory_operations)

-- "waste counter" and "platen pad counter".
abbrev pub description_fragment : CounterResetTarget → List ℕ
description_fragment waste =
    119 ∷ 97 ∷ 115 ∷ 116 ∷ 101 ∷ 32 ∷ 99 ∷ 111 ∷ 117 ∷ 110 ∷ 116 ∷ 101 ∷ 114 ∷ []
description_fragment platen_pad =
    112 ∷ 108 ∷ 97 ∷ 116 ∷ 101 ∷ 110 ∷ 32 ∷ 112 ∷ 97 ∷ 100 ∷ 32 ∷ 99 ∷ 111 ∷ 117 ∷ 110 ∷ 116 ∷ 101
    ∷ 114 ∷ []

unfoldable pub counter_reset : EpsonSpec → CounterResetTarget → Option MemoryOperation
unfolding merged_operation
counter_reset spec target = merged_operation spec (description_fragment target)
