-- ===== src/Transaction/Encode.antt =====
-- crates/reink-d4/src/transaction.rs: `TransactionMessage::encode`.
use reink_rust.Base.Bytes.{to_be_bytes}
use reink_rust.Base.{
  List, Option, [], if◌then◌else◌, length, ltb, none, some, ℕ, ◌++◌, ◌==◌, ◌>>=◌, ◌∷◌, Result, ok,
  err,
}
use reink_rust.Transaction.Names.{TransactionParseError, message_too_large, ascii}
use reink_rust.Transaction.Message.{
  ProtocolRevision, is_v10, as_byte, TransactionMessage, init, init_reply, open_channel,
  open_channel_reply, close_channel, close_channel_reply, credit, credit_reply, credit_request,
  credit_request_reply, exit, exit_reply, get_socket_id, get_socket_id_reply, get_service_name,
  get_service_name_reply, error,
}

abbrev max_transaction_payload_length : ℕ
max_transaction_payload_length = 58

abbrev unwrap_or_zero : Option ℕ → ℕ
unwrap_or_zero none = 0
unwrap_or_zero (some v) = v

-- The bytes of a message, before the check of their number.
unfoldable pub encode_fields :
    TransactionMessage → ProtocolRevision → Result TransactionParseError (List ℕ)
encode_fields (init r) revision = ok (0x00 ∷ as_byte r ∷ [])
encode_fields (init_reply result r) revision = ok (0x80 ∷ result ∷ as_byte r ∷ [])
encode_fields (open_channel peer source packet service max initial) revision = ok (
    0x01 ∷ peer ∷ source ∷ []
    ++ (to_be_bytes packet
        ++ (to_be_bytes service
            ++ (to_be_bytes max
                ++ (if is_v10 revision then to_be_bytes (unwrap_or_zero initial) else [])))))
encode_fields (open_channel_reply result peer source packet service max granted) revision = ok (
    0x81 ∷ result ∷ peer ∷ source ∷ []
    ++ (to_be_bytes packet
        ++ (to_be_bytes service
            ++ (to_be_bytes max ++ (if is_v10 revision then [] else to_be_bytes granted)))))
encode_fields (close_channel peer source) revision =
    ok (0x02 ∷ peer ∷ source ∷ (if is_v10 revision then 0 ∷ [] else []))
encode_fields (close_channel_reply result peer source) revision =
    ok (0x82 ∷ result ∷ peer ∷ source ∷ [])
encode_fields (credit peer source added) revision = ok (0x03 ∷ peer ∷ source ∷ to_be_bytes added)
encode_fields (credit_reply result peer source) revision = ok (0x83 ∷ result ∷ peer ∷ source ∷ [])
encode_fields (credit_request peer source max) revision = ok (
    0x04 ∷ peer ∷ source ∷ []
    ++ (if is_v10 revision then to_be_bytes 0x0080 ++ to_be_bytes 0xffff else to_be_bytes max))
encode_fields (credit_request_reply result peer source added) revision =
    ok (0x84 ∷ result ∷ peer ∷ source ∷ to_be_bytes added)
encode_fields exit revision = ok (0x08 ∷ [])
encode_fields (exit_reply result) revision = ok (0x88 ∷ result ∷ [])
encode_fields (get_socket_id name) revision = do bytes ← ascii name; ok (0x09 ∷ bytes)
encode_fields (get_socket_id_reply result socket name) revision =
    if result == 0
    then (do bytes ← ascii name; ok (0x89 ∷ result ∷ socket ∷ bytes))
    else ok (0x89 ∷ result ∷ socket ∷ [])
encode_fields (get_service_name socket) revision = ok (0x0a ∷ socket ∷ [])
encode_fields (get_service_name_reply result socket name) revision =
    if result == 0
    then (do bytes ← ascii name; ok (0x8a ∷ result ∷ socket ∷ bytes))
    else ok (0x8a ∷ result ∷ socket ∷ [])
encode_fields (error peer source error_code) revision = ok (0x7f ∷ peer ∷ source ∷ error_code ∷ [])

unfoldable pub encode :
    TransactionMessage → ProtocolRevision → Result TransactionParseError (List ℕ)
encode m revision = do
  encoded ← encode_fields m revision
  if ltb max_transaction_payload_length (length encoded)
      then err (message_too_large (length encoded))
      else ok encoded
