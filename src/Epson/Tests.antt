-- ===== src/Epson/Tests.antt =====
-- The merged reset of a specification with overlapping operations.
use reink_rust.Base.{[], none, true, ◌∷◌}
use reink_rust.Base.Text.{to_ascii_lowercase}
use reink_rust.Epson.Spec.{
  EpsonSpec, MemoryOperation, two, waste, description_fragment, merged_operation,
}
use reink_rust.Epson.Reset.{Refines, merged_operation-Refines}

abbrev main_counter : MemoryOperation
main_counter = record {
  description = description_fragment waste;
  addresses = 12 ∷ 13 ∷ [];
  reset_values = 0 ∷ 0 ∷ [];
  reset_values_declared = true;
  minimum = none;
}

abbrev second_counter : MemoryOperation
second_counter = record main_counter { addresses = 13 ∷ 14 ∷ []; reset_values = 94 ∷ 0 ∷ [] }

abbrev pad_spec : EpsonSpec
pad_spec = record {
  model = b'X' ∷ [];
  brand = b'E' ∷ [];
  vendor_id = 1208;
  product_id = none;
  read_key = 1;
  write_key = none;
  shifted_write_key = none;
  read_address_width = two;
  write_address_width = two;
  memory_low = 0;
  memory_high = 255;
  memory_operations = main_counter ∷ second_counter ∷ [];
  read_only_fields = [];
}

merged_operation-Refines_example :
    Refines
      (to_ascii_lowercase (description_fragment waste))
      (main_counter ∷ second_counter ∷ [])
      (merged_operation pad_spec (description_fragment waste))
merged_operation-Refines_example = merged_operation-Refines pad_spec (description_fragment waste)
