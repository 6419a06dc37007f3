-- ===== src/Link/Io.antt =====
-- crates/reink-d4/src/link.rs: packets in and out, with their credit.
use reink_rust.Base.{
  Bool, List, [], false, if◌then◌else◌, leb, length, ltb, not, suc, true, zero, ℕ, ◌%◌, ◌&&◌, ◌*◌,
  ◌++◌, ◌+◌, ◌==◌, ◌||◌, ◌∷◌, Result,
}
use reink_rust.Packet.{Packet, header_length, new_packet, encode, push}
use reink_rust.Transaction.{ProtocolRevision, TransactionMessage, error}
use reink_rust.Transaction
use reink_rust.Platform.Transport.{ByteTransport}
use reink_rust.Link.State.{
  ChannelId, same_channel, transaction_id, ConversationState, inactive, active, exiting, terminated,
  D4Link, transport, packet, transaction, unknown_channel, insufficient_credit, unexpected_eof,
  conversation_inactive, conversation_exiting, conversation_terminated, credit_overflow,
  transaction_payload_too_large, packet_exceeds_negotiated_size, ok, err, out_of_fuel, M, ◌>>=◌,
  ◌>>◌, pure, fail, gets, guard, lift, known, expect_channel, write_all,
}

abbrev pub read_buffer : ℕ
read_buffer = 4096

abbrev pub max_consecutive_empty_reads : ℕ
max_consecutive_empty_reads = 7

-- One round in which a read brings no packet adds a byte to an unfinished packet of at most 65535,
-- or is one of at most six empty reads in a row.
abbrev pub read_fuel : ℕ
read_fuel = 7 * 65536 + 8

abbrev pub is_inactive : ConversationState → Bool
is_inactive inactive = true
is_inactive _ = false

abbrev pub packet_channel : Packet → ChannelId
packet_channel p = record {
  peer_socket = p.header.peer_socket;
  source_socket = p.header.source_socket;
}

-- The u16 operators of an unchecked build.
abbrev pub add_u16 : ℕ → ℕ → ℕ
add_u16 a b = (a + b) % 65536

abbrev pub pred_u16 : ℕ → ℕ
pred_u16 a = (a + 65535) % 65536

-- `a.checked_add(b)` has a value.
abbrev pub adds_u16 : ℕ → ℕ → Bool
adds_u16 a b = ltb (a + b) 65536

-- The result of `pop_front` on the packets received, or another read.
abbrev pub pop_or : {T : ByteTransport} → List Packet → M T Packet → M T Packet
pop_or [] otherwise s = otherwise s
pop_or (p ∷ rest) otherwise s = (ok p, record s { received = rest })

module _ {T : ByteTransport} where
  unfoldable pub require_active_conversation : M T (Unit {0})
  require_active_conversation s = elim s.conversation [
    | active ↦ (ok tt, s)
    | inactive ↦ (err conversation_inactive, s)
    | exiting ↦ (err conversation_exiting, s)
    | terminated ↦ (err conversation_terminated, s)
  ]

  -- The body of the `loop` of `next_packet`, with the empty reads so far.
  unfoldable pub read_loop : ℕ → ℕ → M T Packet
  read_loop zero empty s = (out_of_fuel, s)
  read_loop (suc fuel) empty s =
      let (r, target) = T.read s.target read_buffer in
      let s' : D4Link T = record s { target = target } in
      elim r [
        | Result.err e ↦ (err (transport e), s')
        | Result.ok bytes ↦
            let again = read_loop fuel (suc empty) s' in
            let (pushed, decoder) = push s.decoder bytes in
            let s'' : D4Link T = record s' { decoder = decoder } in
            if length bytes == 0
            then (if suc empty == max_consecutive_empty_reads
                then (err unexpected_eof, s')
                else again)
            else elim pushed [
              | Result.err e ↦ (err (packet e), s'')
              | Result.ok packets ↦ pop_or (s.received ++ packets) (read_loop fuel 0) s''
            ]
      ]

  unfoldable pub next_packet : M T Packet
  next_packet s = pop_or s.received (read_loop read_fuel 0) s

  unfoldable pub send : ChannelId → List ℕ → Bool → M T (Unit {0})
  send channel payload consume_credit = do
    conversation ← gets (λ s. s.conversation)
    if is_inactive conversation then pure tt else require_active_conversation
    state ← known channel
    guard (same_channel channel transaction_id || state.is_open) (unknown_channel channel)
    guard (not (consume_credit && state.credit == 0)) (insufficient_credit channel state.name)
    guard (leb (header_length + length payload) state.max_packet_size) (
        packet_exceeds_negotiated_size channel (header_length + length payload)
          state.max_packet_size)
    p ← lift packet (new_packet channel.peer_socket channel.source_socket payload 1 0)
    write_all (encode p)
    if consume_credit
        then expect_channel channel (λ c. record c { credit = pred_u16 c.credit })
        else pure tt

  unfoldable pub send_error : ChannelId → ℕ → M T (Unit {0})
  send_error channel error_code = do
    revision ← gets (λ s. s.revision)
    payload ←
        lift transaction
          (Transaction.encode (error channel.peer_socket channel.source_socket error_code) revision)
    p ← lift packet (new_packet 0 0 payload 0 0)
    write_all (encode p)

  unfoldable pub apply_credit : Packet → M T (Unit {0})
  apply_credit p = do
    state ← known (packet_channel p)
    guard (leb p.header.length state.max_service_size)
        (packet_exceeds_negotiated_size (packet_channel p) p.header.length state.max_service_size)
    if adds_u16 state.credit p.header.credit
        then expect_channel (packet_channel p)
            (λ c. record c { credit = add_u16 c.credit p.header.credit })
        else (do send_error (packet_channel p) 0x86; fail (credit_overflow (packet_channel p)))

  unfoldable pub send_transaction : TransactionMessage → Bool → M T (Unit {0})
  send_transaction message consume_credit = do
    revision ← gets (λ s. s.revision)
    payload ← lift transaction (Transaction.encode message revision)
    guard (leb (length payload) 58) (transaction_payload_too_large (length payload))
    send transaction_id payload consume_credit
