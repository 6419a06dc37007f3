-- ===== src/Transaction/Decode.antt =====
-- crates/reink-d4/src/transaction.rs: `TransactionMessage::decode`, one function for each code.
use reink_rust.Base.Bytes.{from_be_bytes}
use reink_rust.Base.{
  Bool, List, Option, String, [], drop, false, get_elem?, if◌then◌else◌, length, ltb, none, not,
  some, suc, true, ℕ, ◌==◌, ◌>>=◌, ◌>>◌, ◌∷◌, Result, ok, err,
}
use reink_rust.Transaction.Names.{
  TransactionParseError, truncated, unknown_code, unexpected_length, ascii_from,
}
use reink_rust.Transaction.Message.{
  from_byte, ProtocolRevision, is_v10, TransactionMessage, init, init_reply, open_channel,
  open_channel_reply, close_channel, close_channel_reply, credit, credit_reply, credit_request,
  credit_request_reply, exit, exit_reply, get_socket_id, get_socket_id_reply, get_service_name,
  get_service_name_reply, error,
}

abbrev pub byte : List ℕ → ℕ → Result TransactionParseError ℕ
byte bytes index = elim (get_elem? bytes index) [
  | none ↦ err (truncated "transaction field")
  | some b ↦ ok b
]

abbrev pub u16_at : List ℕ → ℕ → Result TransactionParseError ℕ
u16_at bytes index = do hi ← byte bytes index; lo ← byte bytes (suc index); ok (from_be_bytes hi lo)

abbrev pub exact_length : List ℕ → ℕ → String → Result TransactionParseError (Unit {0})
exact_length bytes expected message =
    if length bytes == expected
    then ok tt
    else if ltb (length bytes) expected
    then err (truncated "transaction field")
    else err (unexpected_length message expected (length bytes))

abbrev when : Bool → Result TransactionParseError ℕ → ℕ → Result TransactionParseError ℕ
when true r d = r
when false r d = ok d

abbrev when_some : Bool → Result TransactionParseError ℕ → Result TransactionParseError (Option ℕ)
when_some true r = do v ← r; ok (some v)
when_some false r = ok none

abbrev name_or_empty : List ℕ → ℕ → String → Result TransactionParseError (List ℕ)
name_or_empty body result label =
    if result == 0 then ascii_from (drop 2 body) else (do exact_length body 2 label; ok [])

-- The body of each message, by its code.
unfoldable pub decode_init : List ℕ → Result TransactionParseError TransactionMessage
unfolding from_byte
decode_init body = do exact_length body 1 "Init"; b ← byte body 0; r ← from_byte b; ok (init r)

unfoldable pub decode_init_reply : List ℕ → Result TransactionParseError TransactionMessage
unfolding from_byte
decode_init_reply body = do
  exact_length body 2 "Init reply"
  result ← byte body 0
  b ← byte body 1
  r ← from_byte b
  ok (init_reply result r)

unfoldable pub decode_open_channel :
    List ℕ → ProtocolRevision → Result TransactionParseError TransactionMessage
decode_open_channel body revision = do
  exact_length body (if is_v10 revision then 10 else 8) "OpenChannel"
  initial ← when_some (is_v10 revision) (u16_at body 8)
  peer ← byte body 0
  source ← byte body 1
  packet ← u16_at body 2
  service ← u16_at body 4
  max ← u16_at body 6
  ok (open_channel peer source packet service max initial)

unfoldable pub decode_open_channel_reply :
    List ℕ → ProtocolRevision → Result TransactionParseError TransactionMessage
decode_open_channel_reply body revision = do
  exact_length body (if is_v10 revision then 9 else 11) "OpenChannel reply"
  result ← byte body 0
  peer ← byte body 1
  source ← byte body 2
  packet ← u16_at body 3
  service ← u16_at body 5
  max ← u16_at body 7
  granted ← when (not (is_v10 revision)) (u16_at body 9) 0
  ok (open_channel_reply result peer source packet service max granted)

unfoldable pub decode_close_channel :
    List ℕ → ProtocolRevision → Result TransactionParseError TransactionMessage
decode_close_channel body revision = do
  exact_length body (if is_v10 revision then 3 else 2) "CloseChannel"
  peer ← byte body 0
  source ← byte body 1
  ok (close_channel peer source)

unfoldable pub decode_close_channel_reply : List ℕ → Result TransactionParseError TransactionMessage
decode_close_channel_reply body = do
  exact_length body 3 "CloseChannel reply"
  result ← byte body 0
  peer ← byte body 1
  source ← byte body 2
  ok (close_channel_reply result peer source)

unfoldable pub decode_credit : List ℕ → Result TransactionParseError TransactionMessage
decode_credit body = do
  exact_length body 4 "Credit"
  peer ← byte body 0
  source ← byte body 1
  added ← u16_at body 2
  ok (credit peer source added)

unfoldable pub decode_credit_reply : List ℕ → Result TransactionParseError TransactionMessage
decode_credit_reply body = do
  exact_length body 3 "Credit reply"
  result ← byte body 0
  peer ← byte body 1
  source ← byte body 2
  ok (credit_reply result peer source)

unfoldable pub decode_credit_request :
    List ℕ → ProtocolRevision → Result TransactionParseError TransactionMessage
decode_credit_request body revision = do
  exact_length body (if is_v10 revision then 6 else 4) "CreditRequest"
  peer ← byte body 0
  source ← byte body 1
  max ← when (not (is_v10 revision)) (u16_at body 2) 0
  ok (credit_request peer source max)

unfoldable pub decode_credit_request_reply :
    List ℕ → Result TransactionParseError TransactionMessage
decode_credit_request_reply body = do
  exact_length body 5 "CreditRequest reply"
  result ← byte body 0
  peer ← byte body 1
  source ← byte body 2
  added ← u16_at body 3
  ok (credit_request_reply result peer source added)

unfoldable pub decode_exit : List ℕ → Result TransactionParseError TransactionMessage
decode_exit body = do exact_length body 0 "Exit"; ok exit

unfoldable pub decode_exit_reply : List ℕ → Result TransactionParseError TransactionMessage
decode_exit_reply body = do
  exact_length body 1 "Exit reply"
  result ← byte body 0
  ok (exit_reply result)

unfoldable pub decode_get_socket_id : List ℕ → Result TransactionParseError TransactionMessage
decode_get_socket_id body = do name ← ascii_from body; ok (get_socket_id name)

unfoldable pub decode_get_socket_id_reply : List ℕ → Result TransactionParseError TransactionMessage
decode_get_socket_id_reply body = do
  result ← byte body 0
  socket ← byte body 1
  name ← name_or_empty body result "GetSocketId reply"
  ok (get_socket_id_reply result socket name)

unfoldable pub decode_get_service_name : List ℕ → Result TransactionParseError TransactionMessage
decode_get_service_name body = do
  exact_length body 1 "GetServiceName"
  socket ← byte body 0
  ok (get_service_name socket)

unfoldable pub decode_get_service_name_reply :
    List ℕ → Result TransactionParseError TransactionMessage
decode_get_service_name_reply body = do
  result ← byte body 0
  socket ← byte body 1
  name ← name_or_empty body result "GetServiceName reply"
  ok (get_service_name_reply result socket name)

unfoldable pub decode_error : List ℕ → Result TransactionParseError TransactionMessage
decode_error body = do
  exact_length body 3 "Error"
  peer ← byte body 0
  source ← byte body 1
  error_code ← byte body 2
  ok (error peer source error_code)

unfoldable pub decode_body :
    ℕ → List ℕ → ProtocolRevision → Result TransactionParseError TransactionMessage
decode_body c body revision =
    if c == 0x00
    then decode_init body
    else if c == 0x80
    then decode_init_reply body
    else if c == 0x01
    then decode_open_channel body revision
    else if c == 0x81
    then decode_open_channel_reply body revision
    else if c == 0x02
    then decode_close_channel body revision
    else if c == 0x82
    then decode_close_channel_reply body
    else if c == 0x03
    then decode_credit body
    else if c == 0x83
    then decode_credit_reply body
    else if c == 0x04
    then decode_credit_request body revision
    else if c == 0x84
    then decode_credit_request_reply body
    else if c == 0x08
    then decode_exit body
    else if c == 0x88
    then decode_exit_reply body
    else if c == 0x09
    then decode_get_socket_id body
    else if c == 0x89
    then decode_get_socket_id_reply body
    else if c == 0x0a
    then decode_get_service_name body
    else if c == 0x8a
    then decode_get_service_name_reply body
    else if c == 0x7f
    then decode_error body
    else err (unknown_code c)

unfoldable pub decode : List ℕ → ProtocolRevision → Result TransactionParseError TransactionMessage
unfolding decode_body
decode [] revision = err (truncated "transaction code")
decode (c ∷ body) revision = decode_body c body revision
