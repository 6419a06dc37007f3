-- ===== src/Transaction/Message.antt =====
-- crates/reink-d4/src/transaction.rs: the messages of the transaction channel and their codes, and
-- `ProtocolRevision` of crates/reink-d4/src/link.rs. A `String` is the list of its UTF-8 bytes.
use reink_rust.Base.{
  Bool, List, Option, bit_or, false, if◌then◌else◌, ltb, true, ℕ, ◌==◌, Result, ok, err,
}
use reink_rust.Transaction.Names.{TransactionParseError, unsupported_revision}

pub data ProtocolRevision : Type 0 where
  v10 v20 : ProtocolRevision

abbrev pub is_v10 : ProtocolRevision → Bool
is_v10 v10 = true
is_v10 v20 = false

abbrev pub as_byte : ProtocolRevision → ℕ
as_byte v10 = 0x10
as_byte v20 = 0x20

unfoldable pub from_byte : ℕ → Result TransactionParseError ProtocolRevision
from_byte revision =
    if revision == 0x10
    then ok v10
    else if revision == 0x20
    then ok v20
    else err (unsupported_revision revision)

-- The fields stand in the order of the source.
pub data TransactionMessage : Type 0 where
  init : (revision : ProtocolRevision) → TransactionMessage
  init_reply : (result : ℕ) (revision : ProtocolRevision) → TransactionMessage
  open_channel :
      (peer source max_packet_size max_service_size max_credit : ℕ) (initial_credit : Option ℕ)
      → TransactionMessage
  open_channel_reply :
      (result peer source max_packet_size max_service_size max_credit granted_credit : ℕ)
      → TransactionMessage
  close_channel : (peer source : ℕ) → TransactionMessage
  close_channel_reply : (result peer source : ℕ) → TransactionMessage
  credit : (peer source added_credit : ℕ) → TransactionMessage
  credit_reply : (result peer source : ℕ) → TransactionMessage
  credit_request : (peer source max_credit : ℕ) → TransactionMessage
  credit_request_reply : (result peer source added_credit : ℕ) → TransactionMessage
  exit : TransactionMessage
  exit_reply : (result : ℕ) → TransactionMessage
  get_socket_id : (service_name : List ℕ) → TransactionMessage
  get_socket_id_reply : (result socket_id : ℕ) (service_name : List ℕ) → TransactionMessage
  get_service_name : (socket_id : ℕ) → TransactionMessage
  get_service_name_reply : (result socket_id : ℕ) (service_name : List ℕ) → TransactionMessage
  error : (peer source error_code : ℕ) → TransactionMessage

abbrev pub code : TransactionMessage → ℕ
code (init _) = 0x00
code (init_reply _ _) = 0x80
code (open_channel _ _ _ _ _ _) = 0x01
code (open_channel_reply _ _ _ _ _ _ _) = 0x81
code (close_channel _ _) = 0x02
code (close_channel_reply _ _ _) = 0x82
code (credit _ _ _) = 0x03
code (credit_reply _ _ _) = 0x83
code (credit_request _ _ _) = 0x04
code (credit_request_reply _ _ _ _) = 0x84
code exit = 0x08
code (exit_reply _) = 0x88
code (get_socket_id _) = 0x09
code (get_socket_id_reply _ _ _) = 0x89
code (get_service_name _) = 0x0a
code (get_service_name_reply _ _ _) = 0x8a
code (error _ _ _) = 0x7f

abbrev pub reply_code : TransactionMessage → ℕ
reply_code m = bit_or (code m) 0x80

abbrev pub is_command : TransactionMessage → Bool
is_command m = ltb (code m) 0x80
