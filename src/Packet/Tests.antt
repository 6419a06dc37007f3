-- ===== src/Packet/Tests.antt =====
-- Runs of the packet codec, and its theorems at them.
use reink_rust.Base.Bytes.{IsByte}
use reink_rust.Base.{
  Result, length, suc, All, List, [], arith, err, none, ok, refl, ◌++◌, ◌∷◌, ◌≡◌, ℕ,
}
use reink_rust.Packet.{
  ended, drain, PacketError, drained, decode_header, encode_header, encode, new_packet, new_header,
  invalid_length, Packet, PacketHeader, new_decoder, push, IsPacket, IsHeader, take_packet,
}
use reink_rust.Packet.Ends.{Ends, push-Ends}
use reink_rust.Packet.Framing.{Agree, feed, stream, feed-push, new_decoder-IsIdle}
use reink_rust.Packet.Reassembly.{feed-encode_all, push_lossless, encode_all}

abbrev request_header : PacketHeader
request_header = record { peer_socket = 2; source_socket = 2; length = 8; credit = 1; control = 0 }

abbrev request_packet : Packet
request_packet = record { header = request_header; payload = 0x61 ∷ 0x62 ∷ [] }

abbrev empty_packet : Packet
empty_packet = record {
  header = record { peer_socket = 0; source_socket = 0; length = 6; credit = 0; control = 1 };
  payload = [];
}

request_header-IsHeader : IsHeader request_header
request_header-IsHeader = record {
  peer_socket = omega arith;
  source_socket = omega arith;
  length = omega arith;
  credit = omega arith;
  not_short = omega arith;
  control = omega arith;
}

request_packet-IsPacket : IsPacket request_packet
request_packet-IsPacket = record {
  header = request_header-IsHeader;
  sized = refl;
  payload = (omega arith, (omega arith, tt));
}

empty_packet-IsPacket : IsPacket empty_packet
empty_packet-IsPacket = record {
  header = record {
    peer_socket = omega arith;
    source_socket = omega arith;
    length = omega arith;
    credit = omega arith;
    not_short = omega arith;
    control = omega arith;
  };
  sized = refl;
  payload = tt;
}

new_request : new_packet 2 2 (0x61 ∷ 0x62 ∷ []) 1 0 ≡ ok request_packet
unfolding new_packet new_header
new_request = refl

-- Two packets and three bytes of a third one, in four reads.
abbrev cut_reads : List (List ℕ)
cut_reads =
    (2 ∷ 2 ∷ 0 ∷ [])
    ∷ (8 ∷ 1 ∷ 0 ∷ 0x61 ∷ [])
    ∷ (0x62 ∷ 0 ∷ 0 ∷ 0 ∷ 6 ∷ 0 ∷ 1 ∷ 9 ∷ [])
    ∷ (9 ∷ 0 ∷ [])
    ∷ []

unfinished : take_packet (9 ∷ 9 ∷ 0 ∷ []) ≡ ok none
unfolding take_packet
unfinished = refl

same_bytes : stream cut_reads ≡ encode_all (request_packet ∷ empty_packet ∷ []) ++ (9 ∷ 9 ∷ 0 ∷ [])
unfolding encode encode_header
same_bytes = refl

feed-encode_all_example :
    feed new_decoder cut_reads
    ≡ (ok (request_packet ∷ empty_packet ∷ []), record { buffer = 9 ∷ 9 ∷ 0 ∷ [] })
feed-encode_all_example =
    feed-encode_all (request_packet ∷ empty_packet ∷ []) (9 ∷ 9 ∷ 0 ∷ []) cut_reads
      (request_packet-IsPacket, (empty_packet-IsPacket, tt)) unfinished same_bytes

feed-push_example : Agree (feed new_decoder cut_reads) (push new_decoder (stream cut_reads))
feed-push_example = feed-push cut_reads new_decoder new_decoder-IsIdle

abbrev pushed : List ℕ
pushed = 2 ∷ 2 ∷ 0 ∷ 8 ∷ 1 ∷ 0 ∷ 0x61 ∷ 0x62 ∷ 5 ∷ []

pushes : (push new_decoder pushed).0 ≡ ok (request_packet ∷ [])
unfolding push take_packet decode_header drained
pushes = refl

push_lossless_example :
    All IsPacket (request_packet ∷ [])
    × All IsByte (push new_decoder pushed).1.buffer
    × (pushed ≡ encode_all (request_packet ∷ []) ++ (push new_decoder pushed).1.buffer)
push_lossless_example =
    push_lossless new_decoder pushed (request_packet ∷ []) tt (omega arith) pushes

push-Ends_example :
    (result : Result PacketError (List Packet)) × (rest : List ℕ) × (drain
        (suc (length pushed))
        pushed
        []
      ≡ ended result rest)
    × Ends pushed [] (result, rest)
    × (push new_decoder pushed ≡ (result, record { buffer = rest }))
push-Ends_example = push-Ends new_decoder pushed

-- The packet in front of a malformed header is lost with it.
push_malformed :
    push new_decoder (2 ∷ 2 ∷ 0 ∷ 8 ∷ 1 ∷ 0 ∷ 0x61 ∷ 0x62 ∷ 0 ∷ 0 ∷ 0 ∷ 5 ∷ 0 ∷ 0 ∷ [])
    ≡ (err (invalid_length 5), record { buffer = 0 ∷ 0 ∷ 0 ∷ 5 ∷ 0 ∷ 0 ∷ [] })
unfolding push take_packet decode_header drained
push_malformed = refl
