-- ===== src/Packet/Round.antt =====
-- crates/reink-d4/src/packet.rs: one round of the loop of `PacketDecoder::push`.
use reink_rust.Base.Bytes.{IsByte, from_be_bytes, reserved_bits}
use reink_rust.Base.{
  refl, inr, inl, none, Option, ◌⊎◌, Result, All-drop, All-take, take-append-drop, length-take,
  drop-append, ◌∷◌, ◌%◌, ◌-◌, drop-length_append, ◌^◌, ◌+◌, take-length_append, All, length-drop,
  length-append, take-append, ◌<◌, arith, length, some, ◌++◌,
}
use reink_rust.Packet.{
  ◌++◌, err, ok, ◌≡◌, PacketError, ℕ, List, Packet, IsPacket, take_packet, encode, header_length,
}

-- The payload's length as `take_packet` computes it from the two bytes of the length.
abbrev span : ℕ → ℕ → ℕ
span hi lo = (from_be_bytes hi lo + 2 ^ 64 - header_length) % 2 ^ 64

-- A packet that is taken uses up six bytes at least.
pub take_packet-shorter :
    (buffer : List ℕ) {p : Packet} {rest : List ℕ}
    → take_packet buffer ≡ ok (some (p, rest))
    → length rest < length buffer
unfolding take_packet
take_packet-shorter (b0 ∷ b1 ∷ b2 ∷ b3 ∷ b4 ∷ b5 ∷ r) e = ground (arith, length-drop (span b2 b3) r)
take_packet-shorter _ e = cc

-- More bytes behind the buffer change neither a packet that was taken nor an error.
pub take_packet-append :
    (buffer more : List ℕ) {p : Packet} {rest : List ℕ}
    → take_packet buffer ≡ ok (some (p, rest))
    → take_packet (buffer ++ more) ≡ ok (some (p, rest ++ more))
unfolding take_packet
take_packet-append (b0 ∷ b1 ∷ b2 ∷ b3 ∷ b4 ∷ b5 ∷ r) more e =
    ground (
      arith,
      length-append r more,
      take-append (span b2 b3) r more,
      drop-append (span b2 b3) r more,
    )
take_packet-append _ more e = cc

pub take_packet-append_err :
    (buffer more : List ℕ) {e : PacketError}
    → take_packet buffer ≡ err e
    → take_packet (buffer ++ more) ≡ err e
unfolding take_packet
take_packet-append_err (b0 ∷ b1 ∷ b2 ∷ b3 ∷ b4 ∷ b5 ∷ r) more h = ground arith
take_packet-append_err _ more h = cc

pub take_packet-IsPacket :
    (buffer : List ℕ) {p : Packet} {rest : List ℕ}
    → All IsByte buffer
    → take_packet buffer ≡ ok (some (p, rest))
    → IsPacket p × All IsByte rest × (buffer ≡ encode p ++ rest)
unfolding take_packet encode
take_packet-IsPacket (b0 ∷ b1 ∷ b2 ∷ b3 ∷ b4 ∷ b5 ∷ r) v e = ground (
  arith,
  reserved_bits b5,
  length-take (span b2 b3) r,
  take-append-drop (span b2 b3) r,
  All-take IsByte (span b2 b3) r v.1.1.1.1.1.1,
  All-drop IsByte (span b2 b3) r v.1.1.1.1.1.1,
)
take_packet-IsPacket _ v e = cc

pub take_packet-encode :
    (p : Packet) (rest : List ℕ) → IsPacket p → take_packet (encode p ++ rest) ≡ ok (some (p, rest))
unfolding take_packet encode
take_packet-encode p rest v = ground (
  arith,
  reserved_bits p.header.control,
  length-append p.payload rest,
  take-length_append p.payload rest,
  drop-length_append p.payload rest,
)

-- The four ways in which a round of the loop can end, with the equation.
abbrev pub TakeCases : List ℕ → Type 0
TakeCases buffer =
    ((e : PacketError) × (take_packet buffer ≡ err e))
    ⊎ ((take_packet buffer ≡ ok none)
        ⊎ ((p : Packet) × (rest : List ℕ) × (take_packet buffer ≡ ok (some (p, rest)))))

pub take_cases : (buffer : List ℕ) → TakeCases buffer
take_cases buffer = go (take_packet buffer) refl
  where
    go :
        (r : Result PacketError (Option (Packet × List ℕ)))
        → take_packet buffer ≡ r
        → TakeCases buffer
    go (err e) h = inl (e, h)
    go (ok none) h = inr (inl h)
    go (ok (some (p, rest))) h = inr (inr (p, rest, h))
