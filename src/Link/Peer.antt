-- ===== src/Link/Peer.antt =====
-- crates/reink-d4/src/link.rs: the peer's commands on the transaction channel.
use reink_rust.Base.{
  Bool, Option, [], false, if◌then◌else◌, ltb, min, none, some, true, ◌+◌, ◌==◌, ℕ,
}
use reink_rust.Transaction.{
  ProtocolRevision, TransactionMessage, init, init_reply, open_channel, open_channel_reply,
  close_channel, close_channel_reply, credit, credit_reply, credit_request, credit_request_reply,
  exit, exit_reply, get_socket_id, get_socket_id_reply, get_service_name, get_service_name_reply,
  error,
}
use reink_rust.Platform.Transport.{ByteTransport}
use reink_rust.Link.State.{
  ChannelId, same_channel, transaction_id, ChannelState, ConversationState, inactive, active,
  exiting, terminated, Channels, unexpected_transaction_reply, credit_overflow, M, ◌>>=◌, ◌>>◌,
  pure, fail, gets, modify, guard, known, expect_channel,
}
use reink_rust.Link.Io.{send_transaction}

-- `retain` of the transaction channel alone.
abbrev pub retain_transaction : Channels → Channels
retain_transaction channels = λ c. if same_channel c transaction_id then channels c else none

abbrev pub is_some : Option ChannelState → Bool
is_some none = false
is_some (some _) = true

abbrev pub close_result : ChannelId → Option ChannelState → ℕ
close_result channel state =
    if same_channel channel transaction_id then 0x03 else if is_some state then 0 else 0x08

module _ {T : ByteTransport} where
  unfoldable pub terminate_conversation : M T (Unit {0})
  terminate_conversation = do
    modify (λ s. record s { channels = retain_transaction s.channels })
    expect_channel transaction_id (λ c. record c { credit = 0 })
    modify (λ s. record s { conversation = terminated })

  unfoldable pub handle_peer_open : ChannelId → ℕ → ℕ → M T (Unit {0})
  handle_peer_open channel packet_size service_size s = elim (s.channels channel) [
    | none ↦
        send_transaction (open_channel_reply 0x0d channel.peer_socket channel.source_socket 0 0 0 0)
          true s
    | some state ↦
        send_transaction
          (open_channel_reply 0 channel.peer_socket channel.source_socket
            (min state.max_packet_size packet_size) (min state.max_service_size service_size)
            state.max_credit 0)
          true s
  ]

  -- The init command of the peer.
  unfoldable pub handle_peer_init : ProtocolRevision → ConversationState → M T (Unit {0})
  handle_peer_init revision inactive = do
    modify (λ s. record s { revision = revision })
    expect_channel transaction_id (λ c. record c { credit = 1 })
    modify (λ s. record s { conversation = active })
    send_transaction (init_reply 0 revision) false
  handle_peer_init revision _ = do
    own ← gets (λ s. s.revision)
    send_transaction (init_reply 0x0b own) false

  unfoldable pub handle_peer_close : ChannelId → M T (Unit {0})
  handle_peer_close channel = do
    state ← gets (λ s. s.channels channel)
    send_transaction
        (close_channel_reply (close_result channel state) channel.peer_socket channel.source_socket)
        true
    if close_result channel state == 0
        then expect_channel channel (λ c. record c { is_open = false })
        else pure tt

  unfoldable pub handle_peer_credit : ChannelId → ℕ → M T (Unit {0})
  handle_peer_credit channel added = do
    state ← known channel
    guard (ltb (state.credit + added) 65536) (credit_overflow channel)
    expect_channel channel (λ c. record c { credit = state.credit + added })
    send_transaction (credit_reply 0 channel.peer_socket channel.source_socket) true

  unfoldable pub handle_peer_exit : M T (Unit {0})
  handle_peer_exit = do
    send_transaction (exit_reply 0) true
    requested ← gets (λ s. s.exit_requested)
    if requested then modify (λ s. record s { conversation = exiting }) else terminate_conversation

  unfoldable pub handle_peer_transaction : TransactionMessage → M T (Unit {0})
  handle_peer_transaction (init revision) = do
    conversation ← gets (λ s. s.conversation)
    handle_peer_init revision conversation
  handle_peer_transaction (open_channel peer source packet_size service_size _ _) =
      handle_peer_open (record { peer_socket = peer; source_socket = source }) packet_size
        service_size
  handle_peer_transaction (close_channel peer source) =
      handle_peer_close (record { peer_socket = peer; source_socket = source })
  handle_peer_transaction (credit peer source added) =
      handle_peer_credit (record { peer_socket = peer; source_socket = source }) added
  handle_peer_transaction (credit_request peer source _) =
      send_transaction (credit_request_reply 0 peer source 0) true
  handle_peer_transaction exit = handle_peer_exit
  handle_peer_transaction (get_socket_id name) =
      send_transaction (get_socket_id_reply 0x0a 0 name) true
  handle_peer_transaction (get_service_name socket) =
      send_transaction (get_service_name_reply 0x0a socket []) true
  handle_peer_transaction (error _ _ _) = pure tt
  handle_peer_transaction _ = fail unexpected_transaction_reply
