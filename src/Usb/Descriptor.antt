-- ===== src/Usb/Descriptor.antt =====
-- crates/reink-usb/src/descriptor.rs: the printer interface of a device.
use reink_rust.Base.{
  Bool, List, Option, [], bit_and, if◌then◌else◌, none, not, some, ◌&&◌, ◌==◌, ◌||◌, ◌∷◌, ℕ,
}

pub record EndpointDescriptor : Type 0 where
  pub address : ℕ
  pub attributes : ℕ
  pub max_packet_size : ℕ

-- `attributes & USB_TRANSFER_TYPE_MASK == USB_TRANSFER_TYPE_BULK`
abbrev pub is_bulk : EndpointDescriptor → Bool
is_bulk endpoint = bit_and endpoint.attributes 0x03 == 0x02

abbrev pub is_in : EndpointDescriptor → Bool
is_in endpoint = not (bit_and endpoint.address 0x80 == 0)

pub record UsbInterfaceDescriptor : Type 0 where
  pub number : ℕ
  pub alternate_setting : ℕ
  pub class_code : ℕ
  pub endpoints : List EndpointDescriptor

pub record SelectedUsbInterface : Type 0 where
  pub number : ℕ
  pub alternate_setting : ℕ
  pub input : EndpointDescriptor
  pub output : EndpointDescriptor

pub record UsbCandidateDeviceDescriptor : Type 0 where
  pub vendor_id : ℕ
  pub product_id : ℕ
  pub bus_number : ℕ
  pub device_address : ℕ
  pub device_class : ℕ
  pub interfaces : List UsbInterfaceDescriptor

pub record UsbPrinterCandidate : Type 0 where
  pub vendor_id : ℕ
  pub product_id : ℕ
  pub bus_number : ℕ
  pub device_address : ℕ
  pub interface_number : ℕ
  pub alternate_setting : ℕ

abbrev pub usb_class_printer : ℕ
usb_class_printer = 0x07

-- `iter.find(..)` and `iter.find_map(..)`
unfoldable pub find_first {ℓ} : {A : Type ℓ} → (A → Bool) → List A → Option A
find_first test [] = none
find_first test (x ∷ xs) = if test x then some x else find_first test xs

unfoldable pub find_map {ℓ} : {A B : Type ℓ} → (A → Option B) → List A → Option B
find_map f [] = none
find_map f (x ∷ xs) = elim (f x) [ some y ↦ some y | none ↦ find_map f xs ]

abbrev pub is_bulk_in : EndpointDescriptor → Bool
is_bulk_in endpoint = is_bulk endpoint && is_in endpoint

abbrev pub is_bulk_out : EndpointDescriptor → Bool
is_bulk_out endpoint = is_bulk endpoint && not (is_in endpoint)

abbrev pub with_endpoints :
    UsbInterfaceDescriptor
    → Option EndpointDescriptor
    → Option EndpointDescriptor
    → Option SelectedUsbInterface
with_endpoints interface (some input) (some output) = some (record {
  number = interface.number;
  alternate_setting = interface.alternate_setting;
  input = input;
  output = output;
})
with_endpoints interface _ _ = none

-- The closure over the interfaces.
unfoldable pub select_interface : ℕ → UsbInterfaceDescriptor → Option SelectedUsbInterface
unfolding find_first
select_interface device_class interface =
    if not (interface.alternate_setting == 0)
      || (not (device_class == usb_class_printer)
          && not (interface.class_code == usb_class_printer))
    then none
    else with_endpoints interface (find_first is_bulk_in interface.endpoints)
        (find_first is_bulk_out interface.endpoints)

unfoldable pub select_printer_interface :
    ℕ → List UsbInterfaceDescriptor → Option SelectedUsbInterface
unfolding find_map select_interface
select_printer_interface device_class = find_map (select_interface device_class)

abbrev pub candidate_of :
    UsbCandidateDeviceDescriptor → Option SelectedUsbInterface → Option UsbPrinterCandidate
candidate_of device none = none
candidate_of device (some selected) = some (record {
  vendor_id = device.vendor_id;
  product_id = device.product_id;
  bus_number = device.bus_number;
  device_address = device.device_address;
  interface_number = selected.number;
  alternate_setting = selected.alternate_setting;
})

-- `iter.filter_map(..).collect()`
unfoldable pub filter_map {ℓ} : {A B : Type ℓ} → (A → Option B) → List A → List B
filter_map f [] = []
filter_map f (x ∷ xs) = let rest = filter_map f xs in elim (f x) [ none ↦ rest | some y ↦ y ∷ rest ]

unfoldable pub select_printer_candidates :
    List UsbCandidateDeviceDescriptor → List UsbPrinterCandidate
unfolding filter_map select_printer_interface
select_printer_candidates =
    filter_map (λ device.
      candidate_of device (select_printer_interface device.device_class device.interfaces))
