-- ===== src/Command/Error.antt =====
-- crates/reink-core/src/command.rs: errors, and what a parse comes to.
use reink_rust.Base.{List, ℕ}
use reink_rust.Epson.Spec.{AddressWidth}

-- `InvalidReadReply` has a constructor for each of its reasons.
pub data CommandError : Type 0 where
  payload_too_long : (length : ℕ) → CommandError
  address_out_of_range : AddressWidth → (address : ℕ) → CommandError
  missing_write_key : CommandError
  not_utf8 no_marker too_short no_semicolon : CommandError
  bad_hex : (hex : List ℕ) → CommandError

pub record EepromReadReply : Type 0 where
  pub address : ℕ
  pub value : ℕ

-- A value, an error, or the panic of a slice that cuts a character.
pub data Parsed (A : Type 0) : Type 0 where
  ok : A → Parsed A
  err : CommandError → Parsed A
  panicked : Parsed A

infixl 10 ◌>>=◌
abbrev pub ◌>>=◌ : {A B : Type 0} → Parsed A → (A → Parsed B) → Parsed B
ok a >>= f = f a
err e >>= f = err e
panicked >>= f = panicked
