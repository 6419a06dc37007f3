-- ===== src/Transaction.antt =====
-- crates/reink-d4/src/transaction.rs: the transaction channel's messages, their encoder and decoder.
mod Names
mod Message
mod Encode
mod Decode
pub mod RoundTrip
pub mod Bounds
pub mod Canonical
pub mod Spelling
pub mod Fields
mod Tests
use reink_rust.Base.{ℕ}
pub use Names.{
  TransactionParseError, truncated, unknown_code, unsupported_revision, non_ascii_service_name,
  invalid_service_name, unexpected_length, message_too_large,
}
unfoldable pub use Names.{is_ascii, is_name, ascii, ascii_from}
pub use Message.{
  ProtocolRevision, v10, v20, is_v10, as_byte, TransactionMessage, init, init_reply, open_channel,
  open_channel_reply, close_channel, close_channel_reply, credit, credit_reply, credit_request,
  credit_request_reply, exit, exit_reply, get_socket_id, get_socket_id_reply, get_service_name,
  get_service_name_reply, error, code, reply_code, is_command,
}
unfoldable pub use Message.{from_byte}
unfoldable pub use Encode.{encode_fields, encode}
unfoldable pub use Decode.{
  decode_init, decode_init_reply, decode_open_channel, decode_open_channel_reply,
  decode_close_channel, decode_close_channel_reply, decode_credit, decode_credit_reply,
  decode_credit_request, decode_credit_request_reply, decode_exit, decode_exit_reply,
  decode_get_socket_id, decode_get_socket_id_reply, decode_get_service_name,
  decode_get_service_name_reply, decode_error, decode_body, decode,
}
