-- ===== src/Link/Exits.antt =====
-- crates/reink-d4/src/link.rs: an exit of the peer between a request to open a channel and its reply.
use reink_rust.Base.Text.{text}
use reink_rust.Base.{false, List, Result, [], ok, some, true, ◌∷◌, ℕ}
use reink_rust.Packet.{Packet, PacketDecoder}
use reink_rust.Transaction.{v20}
use reink_rust.Platform.Transport.{ByteTransport, TransportError}
use reink_rust.Link.State.{active, transaction_id, Channels, set_channel, D4Link, write_all}

-- A packet of the transaction channel that grants one credit.
abbrev from_peer : ℕ → List ℕ → Packet
from_peer size payload = record {
  header = record { peer_socket = 0; source_socket = 0; length = size; credit = 1; control = 0 };
  payload = payload;
}

abbrev pub epson_ctrl : List ℕ
epson_ctrl = text "EPSON-CTRL"

module _ {S : Type 0} (read : S → ℕ → Result TransportError (List ℕ) × S) where
  -- A transport that takes every write.
  abbrev pub accepting : ByteTransport
  accepting = record { Target = S; write_all = λ t bytes. (ok tt, t); read = read }

  -- A link with an active conversation and three packets received: the number of the service, the exit, and
  -- the reply that opens the channel.
  abbrev pub exiting_peer :
      S → PacketDecoder → Channels → List Packet → ℕ → ℕ → ℕ → ℕ → ℕ → ℕ → ℕ → ℕ → D4Link accepting
  exiting_peer t decoder channels rest p p' s s' m m' g g' = record {
    target = t;
    revision = v20;
    decoder = decoder;
    received =
        from_peer 19 (0x89 ∷ 0 ∷ 2 ∷ epson_ctrl)
        ∷ from_peer 7 (0x08 ∷ [])
        ∷ from_peer 18 (0x81 ∷ 0 ∷ 2 ∷ 2 ∷ p ∷ p' ∷ s ∷ s' ∷ m ∷ m' ∷ g ∷ g' ∷ [])
        ∷ rest;
    channels = set_channel channels transaction_id (
        some (record {
          name = [];
          credit = 1;
          max_packet_size = 0x40;
          max_service_size = 0x40;
          max_credit = 0;
          is_open = true;
        }));
    conversation = active;
    exit_requested = false;
  }
