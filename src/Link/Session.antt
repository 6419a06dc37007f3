-- ===== src/Link/Session.antt =====
-- crates/reink-d4/src/link.rs: the methods of `D4Link`. Their loops wait for the peer; a fuel bounds
-- the packets that one loop takes in.
use reink_rust.Base.{
  Bool, Option, [], false, if◌then◌else◌, none, not, some, suc, true, zero, ◌&&◌, ◌++◌, ◌==◌, ◌∷◌,
  ℕ,
}
use reink_rust.Packet.{Packet}
use reink_rust.Transaction.{
  ProtocolRevision, v10, v20, TransactionMessage, init, init_reply, open_channel,
  open_channel_reply, close_channel, close_channel_reply, credit, credit_reply, credit_request,
  credit_request_reply, exit, exit_reply, get_socket_id, get_socket_id_reply, get_service_name,
  get_service_name_reply, error, code, reply_code, is_command,
}
use reink_rust.Transaction
use reink_rust.Platform.Transport.{ByteTransport}
use reink_rust.Link.State.{
  stop, transaction_id, ChannelState, ConversationState, active, exiting, terminated, transaction,
  unexpected_transaction_reply, conversation_already_active, conversation_exiting,
  negotiation_failed, device_rejected, M, ◌>>=◌, ◌>>◌, pure, fail, gets, modify, guard, lift,
  expect_channel,
}
use reink_rust.Link.Io.{next_packet, apply_credit, send_transaction}
use reink_rust.Link.Peer.{handle_peer_transaction}

abbrev pub is_terminated : ConversationState → Bool
is_terminated terminated = true
is_terminated _ = false

-- `packet.header.channel_id() == (0, 0)`
abbrev pub on_transaction_channel : Packet → Bool
on_transaction_channel p = p.header.peer_socket == 0 && p.header.source_socket == 0

abbrev pub is_open_channel : Option ChannelState → Bool
is_open_channel none = false
is_open_channel (some state) = state.is_open

module _ {T : ByteTransport} where
  -- A packet of a service channel that arrives while a transaction is awaited.
  unfoldable pub queue_packet : Packet → M T (Unit {0})
  queue_packet p = do apply_credit p; modify (λ s. record s { received = s.received ++ p ∷ [] })

  unfoldable pub transaction_loop : ℕ → (expected_reply : ℕ) → M T TransactionMessage
  transaction_loop zero expected = stop
  transaction_loop (suc fuel) expected = do
    p ← next_packet
    conversation ← gets (λ s. s.conversation)
    if not (on_transaction_channel p)
        then (if is_terminated conversation
            then transaction_loop fuel expected
            else (do queue_packet p; transaction_loop fuel expected))
        else (do
          apply_credit p
          revision ← gets (λ s. s.revision)
          received ← lift transaction (Transaction.decode p.payload revision)
          if is_command received
              then (do handle_peer_transaction received; transaction_loop fuel expected)
              else (if code received == expected
                  then pure received
                  else fail unexpected_transaction_reply))

  -- `self.transaction(message, consume_credit)`
  unfoldable pub transact : ℕ → TransactionMessage → Bool → M T TransactionMessage
  transact fuel message consume_credit = do
    send_transaction message consume_credit
    transaction_loop fuel (reply_code message)

  -- One round of the loop of `initialize`: `true` ends it, `false` goes on to the next revision.
  unfoldable pub negotiate : ProtocolRevision → TransactionMessage → M T Bool
  negotiate revision (init_reply result negotiated) =
      if result == 0
      then (do
        modify (λ s. record s { revision = negotiated })
        expect_channel transaction_id (λ c. record c { credit = 1 })
        modify (λ s. record s { conversation = active })
        pure true)
      else (do guard (result == 2) (device_rejected result); pure false)
  negotiate revision _ = fail unexpected_transaction_reply

  unfoldable pub initialize_guard : ConversationState → M T (Unit {0})
  initialize_guard active = fail conversation_already_active
  initialize_guard exiting = fail conversation_exiting
  initialize_guard _ = pure tt

  unfoldable pub initialize : ℕ → M T (Unit {0})
  initialize fuel = do
    conversation ← gets (λ s. s.conversation)
    initialize_guard conversation
    reply ← transact fuel (init v20) false
    agreed ← negotiate v20 reply
    if agreed then pure tt else (do
      reply' ← transact fuel (init v10) false
      agreed' ← negotiate v10 reply'
      if agreed' then pure tt else fail negotiation_failed)
