-- ===== src/Usb/HardwareId.antt =====
-- crates/reink-usb/src/native.rs: `parse_usb_hardware_id`.
use reink_rust.Base.Text.{same, text, to_ascii_lowercase}
use reink_rust.Base.Digits.{from_str_radix}
use reink_rust.Base.Split.{onto_first, trim}
use reink_rust.Base.{
  Bool, List, Option, [], drop, if◌then◌else◌, length, none, some, take, ◌&&◌, ◌==◌, ◌||◌, ◌∷◌, ℕ,
}

pub record ParsedUsbHardwareId : Type 0 where
  pub vendor_id : ℕ
  pub product_id : ℕ
  pub interface_number : Option ℕ

-- The three variables that the loop assigns.
pub record Found : Type 0 where
  pub vendor_id : Option ℕ
  pub product_id : Option ℕ
  pub interface_number : Option ℕ

abbrev pub nothing_found : Found
nothing_found = record { vendor_id = none; product_id = none; interface_number = none }

-- `split(['\\', '&'])`
unfoldable pub components : List ℕ → List (List ℕ)
components [] = [] ∷ []
components (b ∷ bs) =
    let rest = components bs in if b == 0x5c || b == b'&' then [] ∷ rest else onto_first b rest

abbrev pub has_prefix : List ℕ → List ℕ → Bool
has_prefix component prefix =
    same (to_ascii_lowercase (take (length prefix) component)) (to_ascii_lowercase prefix)

-- One round: what a component assigns. A prefix that matches is ASCII, so the slice behind it is there.
unfoldable pub assign : Found → List ℕ → Found
unfolding same to_ascii_lowercase from_str_radix
assign found component =
    if length component == 8 && has_prefix component (text "VID_")
    then record found { vendor_id = from_str_radix 16 65536 (drop 4 component) }
    else if length component == 8 && has_prefix component (text "PID_")
    then record found { product_id = from_str_radix 16 65536 (drop 4 component) }
    else if length component == 5 && has_prefix component (text "MI_")
    then record found { interface_number = from_str_radix 16 256 (drop 3 component) }
    else found

unfoldable pub assign_all : Found → List (List ℕ) → Found
unfolding assign trim
assign_all found [] = found
assign_all found (component ∷ cs) = assign_all (assign found (trim component)) cs

-- `vendor_id?` and `product_id?`
abbrev pub complete : Option ℕ → Option ℕ → Option ℕ → Option ParsedUsbHardwareId
complete none _ _ = none
complete (some vendor) none _ = none
complete (some vendor) (some product) interface =
    some (record { vendor_id = vendor; product_id = product; interface_number = interface })

unfoldable pub parse_usb_hardware_id_inner : List ℕ → Option ParsedUsbHardwareId
unfolding assign_all components
parse_usb_hardware_id_inner value =
    let found = assign_all nothing_found (components value) in
    complete found.vendor_id found.product_id found.interface_number

unfoldable pub parse_usb_hardware_id : List ℕ → Option (ℕ × ℕ × Option ℕ)
unfolding parse_usb_hardware_id_inner
parse_usb_hardware_id value = elim (parse_usb_hardware_id_inner value) [
  | none ↦ none
  | some parsed ↦ some (parsed.vendor_id, parsed.product_id, parsed.interface_number)
]
