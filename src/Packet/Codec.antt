-- ===== src/Packet/Codec.antt =====
-- crates/reink-d4/src/packet.rs: headers and packets built by `new`, and their bytes.
use reink_rust.Base.{◌<◌, ◌⊎◌, err, ◌+◌, ◌≤◌, length, ℕ, ◌≡◌, ◌++◌, List, ◌∷◌, All, ok, arith}
use reink_rust.Base.Bytes.{IsByte, reserved_bits}
use reink_rust.Packet.{
  payload_length, payload_too_large, reserved_control_bits, IsPacket, Packet, encode, new_header,
  new_packet, PacketHeader, IsHeader, encode_header, decode_header,
}

-- The six bytes of a well-formed header, with anything behind them, decode to that header.
pub decode_header-encode :
    (h : PacketHeader) (rest : List ℕ) → IsHeader h → decode_header (encode_header h ++ rest) ≡ ok h
unfolding decode_header encode_header
decode_header-encode h rest v = ground (arith, reserved_bits h.control)

pub decode_header-IsHeader :
    (bytes : List ℕ) (h : PacketHeader) → All IsByte bytes → decode_header bytes ≡ ok h → IsHeader h
unfolding decode_header
decode_header-IsHeader (b0 ∷ b1 ∷ b2 ∷ b3 ∷ b4 ∷ b5 ∷ bytes) h v e =
    ground (arith, reserved_bits b5)
decode_header-IsHeader _ h v e = cc

-- `PacketHeader::new` on field values that fit their types: it fails on reserved control bits and
-- then on a payload beyond 65529 bytes, and otherwise the header is well formed and carries the
-- payload's length.
pub new_header_cases :
    (peer source n credit control : ℕ)
    → IsByte peer
    → IsByte source
    → IsByte credit
    → IsByte control
    → ((4 ≤ control)
        × (new_header peer source n credit control ≡ err (reserved_control_bits control)))
      ⊎ (((control < 4)
            × (65529 < n)
            × (new_header peer source n credit control ≡ err (payload_too_large n)))
          ⊎ ((h : PacketHeader) × (new_header peer source n credit control ≡ ok h)
              × IsHeader h
              × (payload_length h ≡ n)))
unfolding new_header
new_header_cases peer source n credit control hp hs hc hk = ground (arith, reserved_bits control)

-- A packet that `Packet::new` builds from field values of their types is well formed: its header fits
-- its field widths and has no reserved bit, and its length is that of header and payload.
pub new_packet-IsPacket :
    (peer source : ℕ) (payload : List ℕ) (credit control : ℕ) {p : Packet}
    → IsByte peer
    → IsByte source
    → All IsByte payload
    → IsByte credit
    → IsByte control
    → new_packet peer source payload credit control ≡ ok p
    → IsPacket p
unfolding new_packet
new_packet-IsPacket peer source payload credit control hp hs hb hc hk e =
    ground (arith, reserved_bits control)

pub length-encode : (p : Packet) → length (encode p) ≡ 6 + length p.payload
unfolding encode
length-encode p = omega arith
