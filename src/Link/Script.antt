-- ===== src/Link/Script.antt =====
-- Transports for runs of a link.
use reink_rust.Base.{All, List, Result, subst, ◌%◌, [], arith, ok, suc, true, ◌∷◌, ◌≡◌, ℕ}
use reink_rust.Platform.Transport.{TransportError, ByteTransport}
use reink_rust.Link.State.{ChannelId, ChannelState}
use reink_rust.Link.Reads.{ReadsBytes}
use reink_rust.Base.Bytes.{IsByte}

-- A transport that counts its calls, takes every write and never has a byte.
abbrev pub silent : ByteTransport
silent = record {
  Target = ℕ;
  write_all = λ n bytes. (ok tt, suc n);
  read = λ n capacity. (ok [], suc n);
}

-- A transport that takes every write and reads the chunks of a script.
abbrev pub low_bytes : List ℕ → List ℕ
low_bytes [] = []
low_bytes (b ∷ bs) = b % 256 ∷ low_bytes bs

abbrev pub next_chunk : List (List ℕ) → Result TransportError (List ℕ) × List (List ℕ)
next_chunk [] = (ok [], [])
next_chunk (chunk ∷ script) = (ok (low_bytes chunk), script)

abbrev pub scripted : ByteTransport
scripted = record {
  Target = List (List ℕ);
  write_all = λ script bytes. (ok tt, script);
  read = λ script capacity. next_chunk script;
}

pub low_bytes-IsByte : (bytes : List ℕ) → All IsByte (low_bytes bytes)
low_bytes-IsByte [] = tt
low_bytes-IsByte (b ∷ bs) = (omega arith, low_bytes-IsByte bs)

read_eq :
    {a b : List ℕ} → ◌≡◌ {A = Result TransportError (List ℕ)} (Result.ok a) (Result.ok b) → a ≡ b
read_eq h = cc

pub scripted-ReadsBytes : ReadsBytes scripted
scripted-ReadsBytes = record { reads = chunk_bytes }
  where
    chunk_bytes :
        (script : List (List ℕ)) (capacity : ℕ) (bytes : List ℕ)
        → (next_chunk script).0 ≡ Result.ok bytes
        → All IsByte bytes
    chunk_bytes [] capacity bytes h = subst (All IsByte) (read_eq h) tt
    chunk_bytes (chunk ∷ script) capacity bytes h =
        subst (All IsByte) (read_eq h) (low_bytes-IsByte chunk)

-- The reply to Init, in two reads, and then an end of the stream.
abbrev pub greeting : List (List ℕ)
greeting = (0 ∷ 0 ∷ 0 ∷ 9 ∷ 1 ∷ []) ∷ (0 ∷ 0x80 ∷ 0 ∷ 0x20 ∷ []) ∷ []

abbrev pub control_id : ChannelId
control_id = record { peer_socket = 2; source_socket = 2 }

abbrev pub control_state : ChannelState
control_state = record {
  name = 67 ∷ [];
  credit = 1;
  max_packet_size = 256;
  max_service_size = 256;
  max_credit = 1;
  is_open = true;
}
