-- ===== src/Controller/Memory.antt =====
-- crates/reink-core/src/controller.rs: the printer's memory under reads and writes.
use reink_rust.Base.{
  refl, ◌⊎◌, Bool, List, Result-cases, arith, inl, inr, true, ℕ, ◌≡◌, ◌≢◌, Result,
}
use reink_rust.Platform.Control.{ControlChannel}
use reink_rust.Epson.Spec.{EpsonSpec}
use reink_rust.Command.{
  EepromReadReply, Parsed, encode_eeprom_read, encode_eeprom_write, parse_eeprom_read_reply,
}
use reink_rust.Controller.Defs.{Outcome, ok, err, panicked}
use reink_rust.Controller.Ops.{read_eeprom_address, write_eeprom_address}

-- What is assumed of a printer behind a channel. A read does not change its memory, and a reply
-- about the address that was asked for tells what is there. A write changes no other address. That
-- a write is done, or answered, is not assumed.
pub record Printer (C : ControlChannel) (spec : EpsonSpec) : Type 0 where
  pub memory : C.Channel → ℕ → ℕ
  pub read_keeps :
      (s : C.Channel) (a : ℕ) (bytes : List ℕ)
      → encode_eeprom_read spec a ≡ Result.ok bytes
      → (b : ℕ) → memory (C.request s bytes).1 b ≡ memory s b
  pub read_tells :
      (s : C.Channel) (a : ℕ) (bytes response : List ℕ) (reply : EepromReadReply)
      → encode_eeprom_read spec a ≡ Result.ok bytes
      → (C.request s bytes).0 ≡ Result.ok response
      → parse_eeprom_read_reply response spec.read_address_width ≡ Parsed.ok reply
      → reply.address ≡ a
      → reply.value ≡ memory s a
  pub write_keeps :
      (s : C.Channel) (a v : ℕ) (bytes : List ℕ)
      → encode_eeprom_write spec a v ≡ Result.ok bytes
      → (b : ℕ) → b ≢ a
      → memory (C.request s bytes).1 b ≡ memory s b

-- A value, or one of the two other ends.
pub Outcome-cases :
    {E A : Type 0} (o : Outcome E A)
    → ((a : A) × (o ≡ ok a)) ⊎ (((e : E) × (o ≡ err e)) ⊎ (o ≡ panicked))
Outcome-cases (ok a) = inl (a, refl)
Outcome-cases (err e) = inr (inl (e, refl))
Outcome-cases panicked = inr (inr refl)

module _ (C : ControlChannel) (spec : EpsonSpec) (P : Printer C spec) where
  open P use {memory, read_keeps, read_tells, write_keeps}

  -- A read leaves the memory as it is, whatever it returns.
  pub read-memory :
      (a : ℕ) (s : C.Channel) (b : ℕ) → memory (read_eeprom_address C spec a s).1 b ≡ memory s b
  unfolding read_eeprom_address
  read-memory a s b = elim (Result-cases (encode_eeprom_read spec a)) [
    | inl (bytes, e) ↦ ground (arith, e, read_keeps s a bytes e b)
    | inr (x, e) ↦ ground (arith, e)
  ]

  -- A read that succeeds is about its address and tells what is there.
  pub read_true :
      (a : ℕ) (s : C.Channel) (reply : EepromReadReply)
      → (read_eeprom_address C spec a s).0 ≡ ok reply
      → (reply.address ≡ a) × (reply.value ≡ memory s a)
  unfolding read_eeprom_address
  read_true a s reply h = elim (Result-cases (encode_eeprom_read spec a)) [
    | inl (bytes, e) ↦ elim (Result-cases (C.request s bytes).0) [
      | inl (response, r) ↦ ground (arith, e, r, read_tells s a bytes response reply e r)
      | inr (x, r) ↦ ground (arith, e, r)
    ]
    | inr (x, e) ↦ ground (arith, e)
  ]

  -- A write touches its own address at most, whatever it returns.
  pub write-memory_ne :
      (a v : ℕ) (verify : Bool) (s : C.Channel) (b : ℕ)
      → b ≢ a
      → memory (write_eeprom_address C spec a v verify s).1 b ≡ memory s b
  unfolding write_eeprom_address
  write-memory_ne a v verify s b h = elim (Result-cases (encode_eeprom_write spec a v)) [
    | inl (bytes, e) ↦
        ground (arith, e, write_keeps s a v bytes e b h, read-memory a (C.request s bytes).1 b)
    | inr (x, e) ↦ ground (arith, e)
  ]

  -- A write that is verified and succeeds has written its value.
  pub write-memory_self :
      (a v : ℕ) (s : C.Channel)
      → (write_eeprom_address C spec a v true s).0 ≡ ok tt
      → memory (write_eeprom_address C spec a v true s).1 a ≡ v
  unfolding write_eeprom_address
  write-memory_self a v s h = elim (Result-cases (encode_eeprom_write spec a v)) [
    | inl (bytes, e) ↦ elim (Outcome-cases (read_eeprom_address C spec a (C.request s bytes).1).0) [
      | inl (reply, r) ↦ ground (
        arith,
        e,
        r,
        read-memory a (C.request s bytes).1 a,
        read_true a (C.request s bytes).1 reply r,
      )
      | inr other ↦ ground (arith, e, other)
    ]
    | inr (x, e) ↦ ground (arith, e)
  ]
