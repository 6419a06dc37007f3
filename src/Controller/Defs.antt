-- ===== src/Controller/Defs.antt =====
-- crates/reink-core/src/controller.rs: `EpsonController`. A method takes the state of the channel and
-- returns its result and the state after it.
use reink_rust.Identity.{IdentityParseError}
use reink_rust.Base.{
  Bool, List, Option, [], false, if◌then◌else◌, none, some, true, ℕ, ◌&&◌, ◌==◌, ◌||◌, ◌∷◌, Result,
}
use reink_rust.Platform.Control.{ControlChannel, ControlError}
use reink_rust.Command.{CommandError, Parsed}

pub record EepromWriteOptions : Type 0 where
  pub verify_read_back : Bool
  pub atomic : Bool

-- `EepromWriteOptions::default()`
abbrev pub default_options : EepromWriteOptions
default_options = record { verify_read_back = true; atomic = false }

-- The errors of one read or write.
pub data AccessError : Type 0 where
  control : ControlError → AccessError
  command : CommandError → AccessError
  address_mismatch : (requested received : ℕ) → AccessError
  write_rejected : (address : ℕ) → AccessError
  verification_failed : (address expected actual : ℕ) → AccessError

-- The reasons of a failed atomic write stand as the errors whose text the source keeps.
pub data EpsonError : Type 0 where
  access : AccessError → EpsonError
  atomic_write_failed :
      (address : ℕ) (reason : AccessError) (rollback_errors : List (ℕ × AccessError)) → EpsonError
  missing_atomic_original : (address : ℕ) → EpsonError
  operation_has_no_declared_reset : (description : List ℕ) → EpsonError
  operation_reset_length_mismatch : (description : List ℕ) (addresses reset_values : ℕ) → EpsonError
  operation_unavailable : EpsonError
  identity : IdentityParseError → EpsonError
  invalid_identity_response : EpsonError

-- What a method comes to, panics included.
pub data Outcome (E A : Type 0) : Type 0 where
  ok : A → Outcome E A
  err : E → Outcome E A
  panicked : Outcome E A

abbrev pub Updates : Type 0
Updates = List (ℕ × ℕ)

-- `response.windows(4).any(|window| window == b":OK;")`
unfoldable pub has_ok : List ℕ → Bool
has_ok (a ∷ b ∷ c ∷ d ∷ rest) =
    (a == b':' && b == b'O' && c == b'K' && d == b';') || has_ok (b ∷ c ∷ d ∷ rest)
has_ok _ = false

-- The value of the first pair with this address.
unfoldable pub find_original : Updates → ℕ → Option ℕ
find_original [] address = none
find_original ((a, v) ∷ originals) address =
    if a == address then some v else find_original originals address

abbrev pub has_value : Option ℕ → Bool
has_value none = false
has_value (some _) = true

abbrev pub M : Type 0 → Type 0 → Type 0 → Type 0
M S E A = S → Outcome E A × S

module _ {S : Type 0} where
  abbrev pub continue : {E A B : Type 0} → Outcome E A → (A → M S E B) → M S E B
  continue (ok a) f s = f a s
  continue (err e) f s = (err e, s)
  continue panicked f s = (panicked, s)

  infixl 10 ◌>>=◌ ◌>>◌
  abbrev pub ◌>>=◌ : {E A B : Type 0} → M S E A → (A → M S E B) → M S E B
  ◌>>=◌ m f s = continue (m s).0 f (m s).1

  abbrev pub ◌>>◌ : {E A B : Type 0} → M S E A → M S E B → M S E B
  m >> k = m >>= λ _. k

  abbrev pub pure : {E A : Type 0} → A → M S E A
  pure a s = (ok a, s)

  abbrev pub fail : {E A : Type 0} → E → M S E A
  fail e s = (err e, s)

  abbrev pub lift_command : {A : Type 0} → Result CommandError A → M S AccessError A
  lift_command (Result.ok a) s = (ok a, s)
  lift_command (Result.err e) s = (err (command e), s)

  abbrev pub lift_parsed : {A : Type 0} → Parsed A → M S AccessError A
  lift_parsed (Parsed.ok a) s = (ok a, s)
  lift_parsed (Parsed.err e) s = (err (command e), s)
  lift_parsed Parsed.panicked s = (panicked, s)

-- `self.channel.request(&request)?`
abbrev pub send_request : (C : ControlChannel) → List ℕ → M C.Channel AccessError (List ℕ)
send_request C bytes s =
    let (r, s') = C.request s bytes in
    elim r [ Result.ok reply ↦ (ok reply, s') | Result.err e ↦ (err (control e), s') ]
