-- ===== src/Usb/Selection.antt =====
-- crates/reink-usb/src/selection.rs: the device that a selector names.
use reink_rust.Base.{
  Bool, List, Option, Result, err, none, ok, refl, some, true, ◌&&◌, ◌==◌, ◌≡◌, ℕ,
}
use reink_rust.Usb.Unique.{select_unique-Describes, Choice, select_unique, Describes}

pub record UsbDeviceLocation : Type 0 where
  pub bus_number : ℕ
  pub address : ℕ

pub record UsbDeviceSelector : Type 0 where
  pub vendor_id : ℕ
  pub product_id : ℕ
  pub location : Option UsbDeviceLocation

abbrev pub new_selector : ℕ → ℕ → UsbDeviceSelector
new_selector vendor_id product_id = record {
  vendor_id = vendor_id;
  product_id = product_id;
  location = none;
}

abbrev pub at_location : ℕ → ℕ → ℕ → ℕ → UsbDeviceSelector
at_location vendor_id product_id bus_number address = record {
  vendor_id = vendor_id;
  product_id = product_id;
  location = some (record { bus_number = bus_number; address = address });
}

pub record UsbDeviceDescriptor : Type 0 where
  pub vendor_id : ℕ
  pub product_id : ℕ
  pub location : UsbDeviceLocation

pub data UsbDeviceSelectionError : Type 0 where
  device_not_found : UsbDeviceSelector → UsbDeviceSelectionError
  device_ambiguous : UsbDeviceSelector → (matches : ℕ) → UsbDeviceSelectionError

abbrev pub at_this : UsbDeviceLocation → Option UsbDeviceLocation → Bool
at_this here none = true
at_this here (some location) =
    here.bus_number == location.bus_number && here.address == location.address

-- The closure of the filter.
abbrev pub selects : UsbDeviceSelector → UsbDeviceDescriptor → Bool
selects selector device =
    device.vendor_id == selector.vendor_id
    && device.product_id == selector.product_id
    && at_this device.location selector.location

abbrev pub selection_result :
    UsbDeviceSelector
    → Choice UsbDeviceDescriptor
    → Result UsbDeviceSelectionError UsbDeviceDescriptor
selection_result selector Choice.not_found = err (device_not_found selector)
selection_result selector (Choice.chosen device) = ok device
selection_result selector (Choice.ambiguous matches) = err (device_ambiguous selector matches)

unfoldable pub select_usb_device :
    List UsbDeviceDescriptor
    → UsbDeviceSelector
    → Result UsbDeviceSelectionError UsbDeviceDescriptor
unfolding select_unique
select_usb_device devices selector =
    selection_result selector (select_unique (selects selector) devices)

-- What a result says of the attached devices.
abbrev pub IsSelection :
    List UsbDeviceDescriptor
    → UsbDeviceSelector
    → Result UsbDeviceSelectionError UsbDeviceDescriptor
    → Type 0
IsSelection devices selector (ok device) =
    Describes (selects selector) devices (Choice.chosen device)
IsSelection devices selector (err (device_not_found s)) =
    (s ≡ selector) × Describes (selects selector) devices Choice.not_found
IsSelection devices selector (err (device_ambiguous s n)) =
    (s ≡ selector) × Describes (selects selector) devices (Choice.ambiguous n)

selection_result-IsSelection :
    (devices : List UsbDeviceDescriptor) (selector : UsbDeviceSelector)
    (choice : Choice UsbDeviceDescriptor)
    → Describes (selects selector) devices choice
    → IsSelection devices selector (selection_result selector choice)
selection_result-IsSelection devices selector Choice.not_found h = (refl, h)
selection_result-IsSelection devices selector (Choice.chosen device) h = h
selection_result-IsSelection devices selector (Choice.ambiguous n) h = (refl, h)

-- A device is selected only if exactly one position of the list has the vendor and product, and the
-- location where one is given; not found means that none has, and ambiguous that at least two have, with
-- their number.
pub select_usb_device-IsSelection :
    (devices : List UsbDeviceDescriptor) (selector : UsbDeviceSelector)
    → IsSelection devices selector (select_usb_device devices selector)
unfolding select_usb_device
select_usb_device-IsSelection devices selector =
    selection_result-IsSelection devices selector (select_unique (selects selector) devices)
      (select_unique-Describes (selects selector) devices)
