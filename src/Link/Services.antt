-- ===== src/Link/Services.antt =====
-- crates/reink-d4/src/link.rs: the methods that open, use and close service channels.
use reink_rust.Base.{
  Bool, List, Option, [], false, if◌then◌else◌, ltb, none, not, some, suc, true, zero, ◌&&◌, ◌++◌,
  ◌+◌, ◌==◌, ◌∷◌, ℕ,
}
use reink_rust.Transaction.{
  ProtocolRevision, v10, v20, TransactionMessage, init, init_reply, open_channel,
  open_channel_reply, close_channel, close_channel_reply, credit, credit_reply, credit_request,
  credit_request_reply, exit, exit_reply, get_socket_id, get_socket_id_reply, get_service_name,
  get_service_name_reply, error, code, reply_code, is_command,
}
use reink_rust.Transaction
use reink_rust.Platform.Transport.{ByteTransport}
use reink_rust.Link.State.{
  panic, stop, ChannelId, same_channel, transaction_id, ChannelState, set_channel, transaction,
  unknown_channel, insufficient_credit, unexpected_transaction_reply, conversation_terminated,
  transaction_channel_operation, device_rejected, credit_overflow, M, ◌>>=◌, ◌>>◌, pure, fail, gets,
  modify, guard, lift, known, expect_channel,
}
use reink_rust.Link.Io.{
  packet_channel, require_active_conversation, next_packet, send, apply_credit,
}
use reink_rust.Link.Peer.{terminate_conversation, handle_peer_transaction}
use reink_rust.Link.Session.{is_terminated, on_transaction_channel, is_open_channel, transact}

-- `returned_name != service_name`, as bytes.
unfoldable pub same_name : List ℕ → List ℕ → Bool
same_name [] [] = true
same_name [] (b ∷ bs) = false
same_name (a ∷ as') [] = false
same_name (a ∷ as') (b ∷ bs) = a == b && same_name as' bs

-- The entry of a channel that is being opened.
abbrev pub pending_channel : List ℕ → ChannelState
pending_channel name = record {
  name = name;
  credit = 0;
  max_packet_size = 0x100;
  max_service_size = 0x100;
  max_credit = 0;
  is_open = false;
}

unfoldable pub is_accepted_exit : TransactionMessage → Bool
is_accepted_exit (exit_reply result) = result == 0
is_accepted_exit _ = false

module _ {T : ByteTransport} where
  unfoldable pub socket_of : List ℕ → TransactionMessage → M T ChannelId
  socket_of name (get_socket_id_reply result socket returned) = do
    guard (result == 0 && same_name returned name) (device_rejected result)
    pure (record { peer_socket = socket; source_socket = socket })
  socket_of name _ = fail unexpected_transaction_reply

  unfoldable pub finish_open : ChannelId → TransactionMessage → M T ChannelId
  finish_open channel (open_channel_reply result _ _ packet_size service_size max granted) = do
    guard (result == 0) (device_rejected result)
    expect_channel channel (λ c. record c {
      credit = granted;
      max_packet_size = packet_size;
      max_service_size = service_size;
      max_credit = max;
      is_open = true;
    })
    pure channel
  finish_open channel _ = fail unexpected_transaction_reply

  unfoldable pub open_service : ℕ → List ℕ → M T ChannelId
  open_service fuel name = do
    reply ← transact fuel (get_socket_id name) true
    channel ← socket_of name reply
    modify
        (λ s. record s { channels = set_channel s.channels channel (some (pending_channel name)) })
    reply' ←
        transact fuel
          (open_channel channel.peer_socket channel.source_socket 0x100 0x100 0 (some 0)) true
    finish_open channel reply'

  unfoldable pub named_reply : ℕ → TransactionMessage → M T (List ℕ)
  named_reply socket (get_service_name_reply result returned name) = do
    guard (result == 0 && returned == socket) (device_rejected result)
    pure name
  named_reply socket _ = fail unexpected_transaction_reply

  unfoldable pub service_name : ℕ → ℕ → M T (List ℕ)
  service_name fuel socket = do
    reply ← transact fuel (get_service_name socket) true
    named_reply socket reply

  unfoldable pub finish_close : ChannelId → TransactionMessage → M T (Unit {0})
  finish_close channel (close_channel_reply result peer source) = do
    guard
        (result == 0
          && same_channel (record { peer_socket = peer; source_socket = source }) channel)
        (device_rejected result)
    modify (λ s. record s { channels = set_channel s.channels channel none })
  finish_close channel _ = fail unexpected_transaction_reply

  unfoldable pub close : ℕ → ChannelId → M T (Unit {0})
  close fuel channel = do
    guard (not (same_channel channel transaction_id)) transaction_channel_operation
    state ← gets (λ s. s.channels channel)
    guard (is_open_channel state) (unknown_channel channel)
    reply ← transact fuel (close_channel channel.peer_socket channel.source_socket) true
    finish_close channel reply

  -- `D4Link::exit`.
  unfoldable pub exit_conversation : ℕ → M T (Unit {0})
  exit_conversation fuel = do
    require_active_conversation
    modify (λ s. record s { exit_requested = true })
    reply ← transact fuel exit true
    guard (is_accepted_exit reply) unexpected_transaction_reply
    terminate_conversation

  -- `get_mut(&channel).expect(..)`, and the grant that it adds with `checked_add`.
  unfoldable pub grant_to : ChannelId → ℕ → Option ChannelState → M T Bool
  grant_to channel added none = panic
  grant_to channel added (some state) = do
    guard (ltb (state.credit + added) 65536) (credit_overflow channel)
    expect_channel channel (λ c. record c { credit = state.credit + added })
    pure (ltb 0 (state.credit + added))

  -- The reply to a CreditRequest, for the channel that asked; `true` if there is credit now.
  unfoldable pub grant : ChannelId → TransactionMessage → M T Bool
  grant channel (credit_request_reply result peer source added) = do
    guard
        (result == 0
          && same_channel (record { peer_socket = peer; source_socket = source }) channel)
        (device_rejected result)
    present ← gets (λ s. s.channels channel)
    grant_to channel added present
  grant channel _ = fail unexpected_transaction_reply

  unfoldable pub credit_rounds : ℕ → ℕ → ChannelId → M T (Unit {0})
  credit_rounds fuel zero channel = do
    state ← known channel
    fail (insufficient_credit channel state.name)
  credit_rounds fuel (suc rounds) channel = do
    state ← known channel
    if ltb 0 state.credit then pure tt else (do
      reply ←
          transact fuel (credit_request channel.peer_socket channel.source_socket state.max_credit)
            true
      granted ← grant channel reply
      if granted then pure tt else credit_rounds fuel rounds channel)

  unfoldable pub ensure_channel_credit : ℕ → ChannelId → M T (Unit {0})
  ensure_channel_credit fuel channel = credit_rounds fuel 3 channel

  unfoldable pub request_loop : ℕ → ChannelId → M T (List ℕ)
  request_loop zero channel = stop
  request_loop (suc fuel) channel = do
    p ← next_packet
    if on_transaction_channel p
        then (do
          apply_credit p
          revision ← gets (λ s. s.revision)
          message ← lift transaction (Transaction.decode p.payload revision)
          guard (is_command message) unexpected_transaction_reply
          handle_peer_transaction message
          conversation ← gets (λ s. s.conversation)
          guard (not (is_terminated conversation)) conversation_terminated
          request_loop fuel channel)
        else (do
          conversation ← gets (λ s. s.conversation)
          if is_terminated conversation then request_loop fuel channel else (do
            apply_credit p
            if same_channel (packet_channel p) channel then pure p.payload else (do
              modify (λ s. record s { received = s.received ++ p ∷ [] })
              request_loop fuel channel)))

  unfoldable pub request : ℕ → ChannelId → List ℕ → M T (List ℕ)
  request fuel channel payload = do
    require_active_conversation
    ensure_channel_credit fuel channel
    send channel payload true
    request_loop fuel channel
