-- ===== src/Usb/Tests.antt =====
-- Two printers of one model, and the choices among them.
use reink_rust.Usb.HandsBack.{claim_interface_with_policy-HandsBack, HandsBack, KernelDriver}
use reink_rust.Usb.Handoff.{
  claim_error, temporarily_detach, busy, claim_interface_with_policy, DeviceHandle,
}
use reink_rust.Usb.HardwareId.{parse_usb_hardware_id}
use reink_rust.Usb.Redaction.{
  redact_identity_serial_fields-hides, all_hidden, redact_identity_serial_fields,
}
use reink_rust.Base.Text.{text}
use reink_rust.Base.{
  Bool, false, ok-injective, none, some, ◌++◌, length, true, List, [], err, ok, refl, ◌∷◌, ◌≡◌, ℕ,
}
use reink_rust.Usb.Selection.{
  select_usb_device-IsSelection, device_ambiguous, IsSelection, select_usb_device,
  UsbDeviceDescriptor, at_location, new_selector,
}

abbrev printer_at : ℕ → UsbDeviceDescriptor
printer_at address = record {
  vendor_id = 0x04b8;
  product_id = 0x1234;
  location = record { bus_number = 1; address = address };
}

abbrev attached : List UsbDeviceDescriptor
attached = printer_at 4 ∷ printer_at 5 ∷ []

select_usb_device-IsSelection_example :
    IsSelection attached
      (at_location 0x04b8 0x1234 1 5)
      (select_usb_device attached (at_location 0x04b8 0x1234 1 5))
select_usb_device-IsSelection_example =
    select_usb_device-IsSelection attached (at_location 0x04b8 0x1234 1 5)

by_location : select_usb_device attached (at_location 0x04b8 0x1234 1 5) ≡ ok (printer_at 5)
unfolding select_usb_device
by_location = refl

ambiguous_model :
    select_usb_device attached (new_selector 0x04b8 0x1234)
    ≡ err (device_ambiguous (new_selector 0x04b8 0x1234) 2)
unfolding select_usb_device
ambiguous_model = refl

abbrev identifier : List ℕ
identifier = text "MFG:EPSON;sn:A1;SERIALNUMBER:SN:B2;"

redact_identity_serial_fields-hides_example :
    (length (redact_identity_serial_fields identifier) ≡ length identifier)
    × (all_hidden (text "SN:") (redact_identity_serial_fields identifier) ≡ true)
    × (all_hidden (text "SERIALNUMBER:") (redact_identity_serial_fields identifier) ≡ true)
redact_identity_serial_fields-hides_example = redact_identity_serial_fields-hides identifier

redacted_path :
    redact_identity_serial_fields identifier ≡ text "MFG:EPSON;sn:XX;SERIALNUMBER:XXXXX;"
unfolding redact_identity_serial_fields
redacted_path = refl

hardware_id :
    parse_usb_hardware_id (text "USB" ++ 0x5c ∷ text "vid_04B8&PID_0893&MI_01")
    ≡ some (0x04b8, 0x0893, some 1)
unfolding parse_usb_hardware_id
hardware_id = refl

no_product : parse_usb_hardware_id (text "VID_04B8&PID_089") ≡ none
unfolding parse_usb_hardware_id
no_product = refl

-- A device whose handle tells whether the kernel's driver is attached, and whose interface is taken.
abbrev taken : DeviceHandle
taken = record {
  Handle = Bool;
  kernel_driver_active = λ h i. (ok h, h);
  detach_kernel_driver = λ h i. (ok tt, false);
  attach_kernel_driver = λ h i. (ok tt, true);
  claim_interface = λ h i. (err busy, h);
  release_interface = λ h i. (ok tt, h);
}

taken_driver : KernelDriver taken 0
taken_driver = record {
  attached = λ h. h;
  query_keeps = λ h. refl;
  query_tells = λ h active eq. ok-injective eq;
  claim_keeps = λ h. refl;
  release_keeps = λ h. refl;
  detaches = λ h eq. refl;
  detach_fails = λ h e eq. absurd (cc eq);
  attaches = λ h eq. refl;
  attach_fails = λ h e eq. absurd (cc eq);
}

claim_interface_with_policy-HandsBack_example :
    HandsBack taken 0 taken_driver temporarily_detach
      (taken_driver.attached true)
      (claim_interface_with_policy taken 0 temporarily_detach true)
claim_interface_with_policy-HandsBack_example =
    claim_interface_with_policy-HandsBack taken 0 taken_driver temporarily_detach true

driver_is_back :
    claim_interface_with_policy taken 0 temporarily_detach true ≡ (err (claim_error busy), true)
unfolding claim_interface_with_policy
driver_is_back = refl
