-- ===== src/Transaction/Names.antt =====
-- crates/reink-d4/src/transaction.rs: service names, and the errors of a malformed message.
use reink_rust.Base.{
  ◌>>◌, Bool, List, String, [], all, arith, if◌then◌else◌, leb, length, ltb, not, suc, true, ℕ,
  ◌&&◌, ◌==◌, ◌||◌, ◌∷◌, ◌≡◌, ◌≤◌, Result, ok, err,
}

pub data TransactionParseError : Type 0 where
  truncated : (message : String) → TransactionParseError
  unknown_code : (code : ℕ) → TransactionParseError
  unsupported_revision : (revision : ℕ) → TransactionParseError
  non_ascii_service_name invalid_service_name : TransactionParseError
  unexpected_length : (message : String) (expected actual : ℕ) → TransactionParseError
  message_too_large : (actual : ℕ) → TransactionParseError

abbrev pub max_service_name_length : ℕ
max_service_name_length = 40

-- `str::is_ascii` and `[u8]::is_ascii`.
unfoldable pub is_ascii : List ℕ → Bool
is_ascii bytes = all (λ b. ltb b 128) bytes

abbrev is_ascii_uppercase : ℕ → Bool
is_ascii_uppercase b = leb b'A' b && leb b b'Z'

abbrev is_name_byte : ℕ → Bool
is_name_byte b = is_ascii_uppercase b || (leb b'0' b && leb b b'9') || b == b'-'

-- The closure of `all` at one index.
abbrev name_byte_at : ℕ → ℕ → ℕ → Bool
name_byte_at index len b =
    is_name_byte b
    && not ((index == 0 && not (is_ascii_uppercase b)) || (suc index == len && b == b'-'))

-- `value.bytes().enumerate().all(..)` from `index` on.
unfoldable pub is_name : ℕ → ℕ → List ℕ → Bool
is_name index len [] = true
is_name index len (b ∷ bytes) = name_byte_at index len b && is_name (suc index) len bytes

unfoldable pub ascii : List ℕ → Result TransactionParseError (List ℕ)
ascii value =
    if not (is_ascii value)
    then err non_ascii_service_name
    else if length value == 0 || ltb max_service_name_length (length value)
    then err invalid_service_name
    else if not (is_name 0 (length value) value)
    then err invalid_service_name
    else ok value

-- `String::from_utf8` is the identity on the bytes of an ASCII string.
unfoldable pub ascii_from : List ℕ → Result TransactionParseError (List ℕ)
unfolding ascii
ascii_from value =
    if not (is_ascii value) then err non_ascii_service_name else (do ascii value; ok value)

-- What `ascii` accepts it returns unchanged, and it is short, not empty, and made of bytes.
pub ascii_ok :
    (value bytes : List ℕ)
    → ascii value ≡ ok bytes
    → (bytes ≡ value) × (1 ≤ length value) × (length value ≤ 40) × (is_ascii value ≡ true)
unfolding ascii
ascii_ok value bytes h = ground arith

pub ascii_from-ascii : (value bytes : List ℕ) → ascii value ≡ ok bytes → ascii_from value ≡ ok value
unfolding ascii_from ascii
ascii_from-ascii value bytes h = ground arith

pub ascii-ascii_from :
    (value name : List ℕ) → ascii_from value ≡ ok name → (name ≡ value) × (ascii name ≡ ok value)
unfolding ascii_from ascii
ascii-ascii_from value name h = ground arith
