-- ===== src/Link/Runs.antt =====
-- crates/reink-d4/src/link.rs: runs of a link from its creation.
use reink_rust.Base.{List, [], refl, ◌∷◌, ◌≡◌, ℕ}
use reink_rust.Packet.{
  push, take_packet, drained, decode_header, new_packet, new_header, encode_header,
}
use reink_rust.Transaction.{
  encode, decode_get_socket_id_reply, decode_open_channel_reply, ascii, ascii_from, is_ascii,
  is_name, decode_exit, decode, decode_body, decode_init_reply, from_byte, encode_fields,
}
use reink_rust.Link.State.{
  panic, panicked, transaction_id, insufficient_credit, Outcome, ◌>>=◌, pure, fail, gets, modify,
  guard, lift, known, expect_channel, write_all, stop, new_link, ChannelId,
}
use reink_rust.Link.Io.{
  require_active_conversation, send_transaction, send, next_packet, read_loop, apply_credit,
}
use reink_rust.Link.Peer.{handle_peer_transaction, handle_peer_exit, terminate_conversation}
use reink_rust.Link.Services.{open_service, socket_of, finish_open, same_name}
use reink_rust.Link.Session.{
  initialize, initialize_guard, transact, negotiate, initialize_guard, initialize, transaction_loop,
}
use reink_rust.Link.Script.{control_id, scripted, greeting}

initialized : (initialize {T = scripted} 8 (new_link greeting)).0 ≡ Outcome.ok tt
unfolding initialize initialize_guard transact transaction_loop send_transaction send next_packet
    read_loop apply_credit negotiate push take_packet drained decode_header encode decode
    decode_body decode_init_reply from_byte encode_fields new_packet new_header encode_header ◌>>=◌
    pure fail gets modify guard lift known expect_channel write_all new_link stop
initialized = refl

abbrev socket_reply : ℕ → List ℕ
socket_reply socket = 0 ∷ 0 ∷ 0 ∷ 10 ∷ 1 ∷ 0 ∷ 0x89 ∷ 0 ∷ socket ∷ 67 ∷ []

abbrev peer_exit : List ℕ
peer_exit = 0 ∷ 0 ∷ 0 ∷ 7 ∷ 1 ∷ 0 ∷ 0x08 ∷ []

abbrev open_reply : List ℕ
open_reply = 0 ∷ 0 ∷ 0 ∷ 18 ∷ 0 ∷ 0 ∷ 0x81 ∷ 0 ∷ 2 ∷ 2 ∷ 1 ∷ 0 ∷ 1 ∷ 0 ∷ 0 ∷ 1 ∷ 0 ∷ 1 ∷ []

abbrev opened : List (List ℕ) → Outcome ChannelId
opened script =
    (open_service {T = scripted} 8 (67 ∷ [])
      (initialize {T = scripted} 8
        (new_link ((0 ∷ 0 ∷ 0 ∷ 9 ∷ 1 ∷ 0 ∷ 0x80 ∷ 0 ∷ 0x20 ∷ []) ∷ script))).1).0

opens_service : opened (socket_reply 2 ∷ open_reply ∷ []) ≡ Outcome.ok control_id
unfolding initialize initialize_guard transact transaction_loop send_transaction send next_packet
    read_loop apply_credit negotiate push take_packet drained decode_header encode decode
    decode_body decode_init_reply from_byte encode_fields new_packet new_header encode_header ◌>>=◌
    pure fail gets modify guard lift known expect_channel write_all new_link stop
    require_active_conversation open_service socket_of finish_open same_name
    decode_get_socket_id_reply decode_open_channel_reply ascii ascii_from is_ascii is_name
opens_service = refl

-- The peer ends the conversation between a request to open a channel and its reply: the `expect` of
-- `open_service` fails.
exit_before_reply : opened (socket_reply 2 ∷ peer_exit ∷ open_reply ∷ []) ≡ panicked
unfolding initialize initialize_guard transact transaction_loop send_transaction send next_packet
    read_loop apply_credit negotiate push take_packet drained decode_header encode decode
    decode_body decode_init_reply from_byte encode_fields new_packet new_header encode_header ◌>>=◌
    pure fail gets modify guard lift known expect_channel write_all new_link stop
    require_active_conversation open_service socket_of finish_open same_name
    decode_get_socket_id_reply decode_open_channel_reply ascii ascii_from is_ascii is_name
    decode_exit handle_peer_transaction handle_peer_exit terminate_conversation panic
exit_before_reply = refl

-- A reply that names socket 0 makes the new channel take the place of the transaction channel.
socket_zero :
    opened (socket_reply 0 ∷ open_reply ∷ [])
    ≡ Outcome.err (insufficient_credit transaction_id (67 ∷ []))
unfolding initialize initialize_guard transact transaction_loop send_transaction send next_packet
    read_loop apply_credit negotiate push take_packet drained decode_header encode decode
    decode_body decode_init_reply from_byte encode_fields new_packet new_header encode_header ◌>>=◌
    pure fail gets modify guard lift known expect_channel write_all new_link stop
    require_active_conversation open_service socket_of finish_open same_name
    decode_get_socket_id_reply decode_open_channel_reply ascii ascii_from is_ascii is_name
socket_zero = refl
