-- ===== src/Usb/Native.antt =====
-- crates/reink-usb/src/native.rs: backends, and the choice among the native candidates of Windows.
use reink_rust.Base.{
  Bool, List, Option, Result, ap, err, false, none, ok, some, true, ◌&&◌, ◌==◌, ◌↔◌, ◌≡◌, ℕ,
}
use reink_rust.Usb.Unique.{select_unique-IsOnly, IsOnly, Choice, select_unique}

pub data PrinterBackend : Type 0 where
  lib_usb windows_native_stock_driver : PrinterBackend

pub record BackendCapabilities : Type 0 where
  pub d4_read : Bool
  pub usb_device_id : Bool
  pub persistent_mutation : Bool
  pub experimental_mutation : Bool

abbrev pub capabilities : PrinterBackend → BackendCapabilities
capabilities lib_usb = record {
  d4_read = true;
  usb_device_id = true;
  persistent_mutation = true;
  experimental_mutation = false;
}
capabilities windows_native_stock_driver = record {
  d4_read = true;
  usb_device_id = false;
  persistent_mutation = true;
  experimental_mutation = true;
}

-- The token of a build for Windows.
pub record NativeCandidateToken : Type 0 where
  pub device_path : List ℕ

pub record WindowsNativePrinterCandidate : Type 0 where
  pub vendor_id : ℕ
  pub product_id : ℕ
  pub interface_number : Option ℕ
  pub token : NativeCandidateToken

abbrev pub candidate_backend : WindowsNativePrinterCandidate → PrinterBackend
candidate_backend candidate = windows_native_stock_driver

abbrev pub candidate_capabilities : WindowsNativePrinterCandidate → BackendCapabilities
candidate_capabilities candidate = capabilities (candidate_backend candidate)

pub record NativePrinterSelector : Type 0 where
  pub vendor_id : ℕ
  pub product_id : ℕ
  pub interface_number : Option ℕ

abbrev pub new_native_selector : ℕ → ℕ → NativePrinterSelector
new_native_selector vendor_id product_id = record {
  vendor_id = vendor_id;
  product_id = product_id;
  interface_number = none;
}

abbrev pub with_interface : ℕ → ℕ → ℕ → NativePrinterSelector
with_interface vendor_id product_id number = record {
  vendor_id = vendor_id;
  product_id = product_id;
  interface_number = some number;
}

pub data NativeCandidateSelectionError : Type 0 where
  candidate_not_found : NativePrinterSelector → NativeCandidateSelectionError
  candidate_ambiguous : NativePrinterSelector → (matches : ℕ) → NativeCandidateSelectionError

-- `selector.interface_number.is_none_or(|number| candidate.interface_number == Some(number))`
abbrev pub interface_matches : Option ℕ → Option ℕ → Bool
interface_matches none found = true
interface_matches (some number) none = false
interface_matches (some number) (some found) = found == number

abbrev pub selects_native : NativePrinterSelector → WindowsNativePrinterCandidate → Bool
selects_native selector candidate =
    candidate.vendor_id == selector.vendor_id
    && candidate.product_id == selector.product_id
    && interface_matches selector.interface_number candidate.interface_number

abbrev pub native_result :
    NativePrinterSelector
    → Choice WindowsNativePrinterCandidate
    → Result NativeCandidateSelectionError WindowsNativePrinterCandidate
native_result selector Choice.not_found = err (candidate_not_found selector)
native_result selector (Choice.chosen candidate) = ok candidate
native_result selector (Choice.ambiguous matches) = err (candidate_ambiguous selector matches)

unfoldable pub select_native_candidate :
    List WindowsNativePrinterCandidate
    → NativePrinterSelector
    → Result NativeCandidateSelectionError WindowsNativePrinterCandidate
unfolding select_unique
select_native_candidate candidates selector =
    native_result selector (select_unique (selects_native selector) candidates)

native_result-chosen :
    (selector : NativePrinterSelector) (choice : Choice WindowsNativePrinterCandidate)
    (candidate : WindowsNativePrinterCandidate)
    → native_result selector choice ≡ ok candidate
    → choice ≡ Choice.chosen candidate
native_result-chosen selector Choice.not_found candidate h = cc h
native_result-chosen selector (Choice.chosen c) candidate h = cc h
native_result-chosen selector (Choice.ambiguous n) candidate h = cc h

-- A native candidate is chosen if and only if exactly one position of the list has the vendor and
-- product, and the interface where one is given, and it is the candidate there.
pub select_native_candidate-IsOnly :
    (candidates : List WindowsNativePrinterCandidate) (selector : NativePrinterSelector)
    (candidate : WindowsNativePrinterCandidate)
    → (select_native_candidate candidates selector ≡ ok candidate)
      ↔ IsOnly (selects_native selector) candidates candidate
unfolding select_native_candidate
select_native_candidate-IsOnly candidates selector candidate =
    let only = select_unique-IsOnly (selects_native selector) candidates candidate in
    (
      λ h. only.0 (
          native_result-chosen selector (select_unique (selects_native selector) candidates)
            candidate h),
      λ h. ap (native_result selector) (only.1 h),
    )
