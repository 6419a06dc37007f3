-- ===== src/Packet.antt =====
-- crates/reink-d4/src/packet.rs: the IEEE 1284.4 packet header, packets, and the incremental
-- decoder. A `u8` or `u16` is a number; `VecDeque<u8>` and `Vec<u8>` are lists of numbers.
pub mod Codec
mod Round
mod Drain
pub mod Ends
pub mod Framing
pub mod Reassembly
mod Tests
use reink_rust.Base.{
  ◌≡◌, ℕ, zero, suc, ◌+◌, ◌-◌, ◌%◌, ◌^◌, ◌≤◌, ◌<◌, Bool, true, false, not, Option, none, some, List,
  [], ◌∷◌, ◌++◌, bit_and, ltb, leb, ◌==◌, if◌then◌else◌, length, take, drop, Result, ok, err, All,
}
use reink_rust.Base.Bytes.{IsByte, IsU16, to_be_bytes, from_be_bytes}

abbrev pub header_length : ℕ
header_length = 6

-- `!CONTROL_MASK` on a `u8`.
abbrev pub reserved_control : ℕ
reserved_control = 0xfc

pub record PacketHeader : Type 0 where
  pub peer_socket : ℕ
  pub source_socket : ℕ
  pub length : ℕ
  pub credit : ℕ
  pub control : ℕ

pub record Packet : Type 0 where
  pub header : PacketHeader
  pub payload : List ℕ

pub data PacketError : Type 0 where
  truncated_header : ℕ → PacketError
  invalid_length : ℕ → PacketError
  reserved_control_bits : ℕ → PacketError
  payload_too_large : ℕ → PacketError

-- `usize::checked_add` on a 64-bit target.
abbrev checked_add_usize : ℕ → ℕ → Option ℕ
checked_add_usize a b = if ltb (a + b) (2 ^ 64) then some (a + b) else none

-- `u16::try_from` with the error of the caller.
abbrev length_u16 : ℕ → ℕ → Result PacketError ℕ
length_u16 payload_length l = if ltb l 65536 then ok l else err (payload_too_large payload_length)

unfoldable pub new_header : ℕ → ℕ → ℕ → ℕ → ℕ → Result PacketError PacketHeader
new_header peer source payload_length credit control =
    if not (bit_and control reserved_control == 0)
    then err (reserved_control_bits control)
    else elim (checked_add_usize header_length payload_length) [
      | none ↦ err (payload_too_large payload_length)
      | some l ↦ elim (length_u16 payload_length l) [
        | err e ↦ err e
        | ok l' ↦ ok (record {
          peer_socket = peer;
          source_socket = source;
          length = l';
          credit = credit;
          control = control;
        })
      ]
    ]

-- The subtraction of an unchecked build, which wraps. A checked build panics on a header that is
-- shorter than its own six bytes.
abbrev pub payload_length : PacketHeader → ℕ
payload_length h = (h.length + 2 ^ 64 - header_length) % 2 ^ 64

abbrev pub channel_id : PacketHeader → ℕ × ℕ
channel_id h = (h.peer_socket, h.source_socket)

unfoldable pub encode_header : PacketHeader → List ℕ
encode_header h =
    h.peer_socket ∷ h.source_socket ∷ (to_be_bytes h.length ++ h.credit ∷ h.control ∷ [])

-- The six bytes that are there once the length is checked.
abbrev decode_fields : ℕ → ℕ → ℕ → ℕ → ℕ → ℕ → Result PacketError PacketHeader
decode_fields peer source hi lo credit control =
    let l = from_be_bytes hi lo in
    if ltb l header_length
    then err (invalid_length l)
    else if not (bit_and control reserved_control == 0)
    then err (reserved_control_bits control)
    else ok (record {
      peer_socket = peer;
      source_socket = source;
      length = l;
      credit = credit;
      control = control;
    })

-- `bytes.len() < HEADER_LENGTH` is the last clause.
unfoldable pub decode_header : List ℕ → Result PacketError PacketHeader
decode_header (b0 ∷ b1 ∷ b2 ∷ b3 ∷ b4 ∷ b5 ∷ bytes) = decode_fields b0 b1 b2 b3 b4 b5
decode_header bytes = err (truncated_header (length bytes))

unfoldable pub new_packet : ℕ → ℕ → List ℕ → ℕ → ℕ → Result PacketError Packet
unfolding new_header
new_packet peer source payload credit control =
    elim (new_header peer source (length payload) credit control) [
      | err e ↦ err e
      | ok header ↦ ok (record { header = header; payload = payload })
    ]

unfoldable pub encode : Packet → List ℕ
unfolding encode_header
encode p = encode_header p.header ++ p.payload

-- One round of the loop of `push`: an error, `break`, or a packet with what stays buffered.
unfoldable pub take_packet : List ℕ → Result PacketError (Option (Packet × List ℕ))
unfolding decode_header
take_packet buffer =
    if ltb (length buffer) header_length
    then ok none
    else elim (decode_header (take header_length buffer)) [
      | err e ↦ err e
      | ok header ↦
          if ltb (length buffer) header.length
          then ok none
          else (let rest = drop header_length buffer in
              ok (
                some (
                  record { header = header; payload = take (payload_length header) rest },
                  drop (payload_length header) rest,
                )))
    ]

-- A round of the loop of `push`: it goes on with another buffer and the packets so far, or it ends, by
-- `break` or by an error, with a result and what is buffered.
pub data LoopRound : Type 0 where
  continued : (buffer : List ℕ) (packets : List Packet) → LoopRound
  ended : Result PacketError (List Packet) → (buffer : List ℕ) → LoopRound

abbrev pub drain_round :
    Result PacketError (Option (Packet × List ℕ)) → List ℕ → List Packet → LoopRound
drain_round (err e) buffer packets = ended (err e) buffer
drain_round (ok none) buffer packets = ended (ok packets) buffer
drain_round (ok (some (p, rest))) buffer packets = continued rest (packets ++ p ∷ [])

-- The loop of `push`, for so many rounds: how it ended, or where it stands if no round has ended it.
unfoldable pub drain : ℕ → List ℕ → List Packet → LoopRound
drain zero buffer packets = continued buffer packets
drain (suc fuel) buffer packets = elim (drain_round (take_packet buffer) buffer packets) [
  | ended result rest ↦ ended result rest
  | continued rest packets' ↦ drain fuel rest packets'
]

abbrev pub drained_part : LoopRound → Result PacketError (List Packet) × List ℕ
drained_part (ended result rest) = (result, rest)
drained_part (continued rest packets) = (ok packets, rest)

unfoldable pub drained : ℕ → List ℕ → List Packet → Result PacketError (List Packet) × List ℕ
unfolding drain
drained fuel buffer packets = drained_part (drain fuel buffer packets)

pub record PacketDecoder : Type 0 where
  pub buffer : List ℕ

abbrev pub new_decoder : PacketDecoder
new_decoder = record { buffer = [] }

-- An error leaves what was drained before it drained. Each round but the last takes six bytes at least, so
-- that the rounds are enough for one to end the loop.
unfoldable pub push : PacketDecoder → List ℕ → Result PacketError (List Packet) × PacketDecoder
unfolding drained take_packet
push d bytes =
    let all_bytes = d.buffer ++ bytes in
    let (result, rest) = drained (suc (length all_bytes)) all_bytes [] in
    (result, record { buffer = rest })

abbrev pub buffered_len : PacketDecoder → ℕ
buffered_len d = length d.buffer

-- The field widths of a header, and the two conditions that both constructors of a header check.
pub record IsHeader (h : PacketHeader) : Type 0 where
  pub peer_socket : IsByte h.peer_socket
  pub source_socket : IsByte h.source_socket
  pub length : IsU16 h.length
  pub credit : IsByte h.credit
  pub not_short : header_length ≤ h.length
  pub control : h.control < 4

-- A packet that can stand on the wire: its header's length is that of header and payload.
pub record IsPacket (p : Packet) : Type 0 where
  pub header : IsHeader p.header
  pub sized : p.header.length ≡ header_length + length p.payload
  pub payload : All IsByte p.payload
