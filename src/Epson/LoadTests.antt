-- ===== src/Epson/LoadTests.antt =====
-- A database of two groups that list one model twice.
use reink_rust.Epson.Resolve.{resolve_identity-print}
use reink_rust.Epson.Fields.{validate_read_only_fields-ok, AllDisjoint}
use reink_rust.Identity.{parse, PrinterIdentity}
use reink_rust.Identity.Print.{aliased, print, Entry}
use reink_rust.Epson.Load.{
  resolve_identity, insert_models, load_group, load_groups, validate_read_only_fields,
  ModelDatabase, from_toml,
}
use reink_rust.Epson.Database.{from_toml-AllSpecs, from_toml-last_spec, last_spec, AllSpecs}
use reink_rust.Epson.Raw.{
  overlapping_read_only_fields, SpecError, RawMemoryOperation, RawSpec, RawEepromField,
}
use reink_rust.Base.Dict.{get, insert}
use reink_rust.Base.Text.{is_ascii, text}
use reink_rust.Base.{
  List, Result, [], arith, err, inl, none, ok, refl, some, true, ◌↔◌, ◌∷◌, ◌≡◌, ℕ,
}
use reink_rust.Epson.Spec.{EepromField}

abbrev waste_counter : RawMemoryOperation
waste_counter = record {
  addr = 16 ∷ 17 ∷ [];
  desc = text "waste counter";
  reset = 0 ∷ 94 ∷ [];
  min = none;
}

abbrev serial_field : RawEepromField
serial_field = record {
  address = none;
  range = some (20, 29);
  label = text "serial";
  encoding = text "ascii";
  confidence = text "confirmed";
  evidence = text "two printers";
  sensitive = true;
}

abbrev old_group : RawSpec
old_group = record {
  brand = none;
  vendor_id = none;
  product_id = none;
  rkey = 25;
  write_key = some (text "Wakatobi");
  shifted_write_key = none;
  read_length = 2;
  write_length = 2;
  memory_low = 0;
  memory_high = 255;
  mem = waste_counter ∷ [];
  read_only_fields = serial_field ∷ [];
  models = text "XP-352" ∷ text "XP-355" ∷ [];
}

abbrev new_group : RawSpec
new_group = record old_group { rkey = 65; models = text "XP-352" ∷ [] }

abbrev two_groups : List RawSpec
two_groups = old_group ∷ new_group ∷ []

-- A parser that finds the two groups in any text.
abbrev from_str : List ℕ → Result (List ℕ) (List RawSpec)
from_str input = ok two_groups

abbrev database_of : Result SpecError ModelDatabase → ModelDatabase
database_of (ok database) = database
database_of (err _) = []

abbrev two_models : ModelDatabase
two_models = database_of (from_toml from_str [])

loads : from_toml from_str [] ≡ ok two_models
unfolding from_toml load_groups load_group
loads = refl

from_toml-AllSpecs_example : AllSpecs two_models
from_toml-AllSpecs_example = from_toml-AllSpecs from_str [] two_models loads

from_toml-last_spec_example : get two_models (text "XP-352") ≡ last_spec two_groups (text "XP-352")
from_toml-last_spec_example =
    from_toml-last_spec from_str [] two_groups two_models (text "XP-352") refl loads

key_of_the_later_group :
    ◌≡◌ {A = ℕ} (elim (get two_models (text "XP-352")) [ none ↦ 0 | some spec ↦ spec.read_key ]) 65
unfolding get from_toml load_groups load_group insert_models insert
key_of_the_later_group = refl

abbrev meeting_field : RawEepromField
meeting_field = record serial_field { range = some (29, 40); label = text "date" }

meeting_fields :
    from_toml
      (λ _. ok (record old_group { read_only_fields = serial_field ∷ meeting_field ∷ [] } ∷ []))
      []
    ≡ err (overlapping_read_only_fields (text "serial") (text "date"))
unfolding from_toml load_groups load_group
meeting_fields = refl

abbrev xp_352 : List Entry
xp_352 = (text "MFG", text "EPSON") ∷ (text "MODEL", text "XP-352 Series") ∷ []

resolve_identity-print_example :
    (identity : PrinterIdentity) × (parse (print xp_352) ≡ ok identity)
    × (resolve_identity two_models identity ≡ get two_models (text "XP-352"))
unfolding is_ascii aliased
resolve_identity-print_example =
    resolve_identity-print two_models xp_352 (text "XP-352") (text "XP-352 Series") (ground arith)
      refl (inl refl)

abbrev spec_fields : List EepromField
spec_fields = elim (get two_models (text "XP-352")) [
  | none ↦ []
  | some spec ↦ spec.read_only_fields
]

spec_fields_checked : (validate_read_only_fields spec_fields ≡ ok tt) ↔ AllDisjoint spec_fields
spec_fields_checked = validate_read_only_fields-ok spec_fields
