-- ===== src/Transaction/RoundTrip.antt =====
-- crates/reink-d4/src/transaction.rs: encoding a message and decoding the bytes.
use reink_rust.Base.Bytes.{from_be_bytes}
use reink_rust.Base.{
  Bool-cases, err, inl, inr, ◌>>=◌, ◌∷◌, Result, length, refl, ◌%◌, ◌/◌, ◌≤◌, List, [], arith,
  if◌then◌else◌, none, ok, some, ◌==◌, ◌≡◌, ℕ,
}
use reink_rust.Transaction.Names.{
  TransactionParseError, ascii, ascii_from, ascii_ok, ascii_from-ascii,
}
use reink_rust.Transaction.Message.{
  ProtocolRevision, v10, v20, TransactionMessage, init, init_reply, open_channel,
  open_channel_reply, credit, credit_request, credit_request_reply, get_socket_id,
  get_socket_id_reply, get_service_name_reply,
}
use reink_rust.Transaction.Encode.{encode, encode_fields}
use reink_rust.Transaction.Decode.{
  decode, decode_body, decode_init, decode_init_reply, decode_open_channel,
  decode_open_channel_reply, decode_close_channel, decode_close_channel_reply, decode_credit,
  decode_credit_reply, decode_credit_request, decode_credit_request_reply, decode_exit,
  decode_exit_reply, decode_get_socket_id, decode_get_socket_id_reply, decode_get_service_name,
  decode_get_service_name_reply, decode_error,
}

-- What a revision carries of a message: V10 has the initial credit of an OpenChannel and not the
-- granted credit of its reply nor the limit of a CreditRequest, V20 the reverse; a failed lookup
-- has no name.
abbrev pub carried : ProtocolRevision → TransactionMessage → TransactionMessage
carried v10 (open_channel a b c d e none) = open_channel a b c d e (some 0)
carried v20 (open_channel a b c d e i) = open_channel a b c d e none
carried v10 (open_channel_reply r a b c d e g) = open_channel_reply r a b c d e 0
carried v10 (credit_request a b m) = credit_request a b 0
carried rev (get_socket_id_reply r s n) = get_socket_id_reply r s (if r == 0 then n else [])
carried rev (get_service_name_reply r s n) = get_service_name_reply r s (if r == 0 then n else [])
carried rev m = m

be_bytes : (v : ℕ) → from_be_bytes (v / 256) (v % 256) ≡ v
be_bytes v = omega arith

reads :
    {bytes written : List ℕ} {m : TransactionMessage} (rev : ProtocolRevision)
    → ◌≡◌ {A = Result TransactionParseError (List ℕ)} (ok written) (ok bytes)
    → decode written rev ≡ ok m
    → decode bytes rev ≡ ok m
reads {bytes} {written} rev h e = let same : written ≡ bytes = cc in rw (← same) e

-- A name that was encoded is accepted by the decoder too.
encoded_name :
    (f : List ℕ → List ℕ) (n : List ℕ) {bytes : List ℕ}
    → (ascii n >>= λ b. ok (f b)) ≡ ok bytes
    → (f n ≡ bytes) × (ascii_from n ≡ ok n)
encoded_name f n {bytes} h = go (ascii n) refl h
  where
    go :
        (r : Result TransactionParseError (List ℕ))
        → ascii n ≡ r
        → (r >>= λ b. ok (f b)) ≡ ok bytes
        → (f n ≡ bytes) × (ascii_from n ≡ ok n)
    go (ok b) e k = let same : b ≡ n = (ascii_ok n b e).0 in (cc, ascii_from-ascii n b e)
    go (err x) e k = cc

decode-encode_fields :
    (m : TransactionMessage) (rev : ProtocolRevision) (bytes : List ℕ)
    → encode_fields m rev ≡ ok bytes
    → decode bytes rev ≡ ok (carried rev m)
unfolding encode_fields decode decode_body decode_init decode_init_reply decode_open_channel
    decode_open_channel_reply decode_close_channel decode_close_channel_reply decode_credit
    decode_credit_reply decode_credit_request decode_credit_request_reply decode_exit
    decode_exit_reply decode_get_socket_id decode_get_socket_id_reply decode_get_service_name
    decode_get_service_name_reply decode_error
decode-encode_fields (init v10) v10 bytes h = reads v10 h refl
decode-encode_fields (init v20) v10 bytes h = reads v10 h refl
decode-encode_fields (init v10) v20 bytes h = reads v20 h refl
decode-encode_fields (init v20) v20 bytes h = reads v20 h refl
decode-encode_fields (init_reply r v10) v10 bytes h = reads v10 h refl
decode-encode_fields (init_reply r v20) v10 bytes h = reads v10 h refl
decode-encode_fields (init_reply r v10) v20 bytes h = reads v20 h refl
decode-encode_fields (init_reply r v20) v20 bytes h = reads v20 h refl
decode-encode_fields (open_channel a b c d e none) v10 bytes h =
    reads v10 h (cc (be_bytes c, be_bytes d, be_bytes e, be_bytes 0))
decode-encode_fields (open_channel a b c d e (some i)) v10 bytes h =
    reads v10 h (cc (be_bytes c, be_bytes d, be_bytes e, be_bytes i))
decode-encode_fields (open_channel a b c d e none) v20 bytes h =
    reads v20 h (cc (be_bytes c, be_bytes d, be_bytes e))
decode-encode_fields (open_channel a b c d e (some i)) v20 bytes h =
    reads v20 h (cc (be_bytes c, be_bytes d, be_bytes e))
decode-encode_fields (open_channel_reply r a b c d e g) v10 bytes h =
    reads v10 h (cc (be_bytes c, be_bytes d, be_bytes e))
decode-encode_fields (open_channel_reply r a b c d e g) v20 bytes h =
    reads v20 h (cc (be_bytes c, be_bytes d, be_bytes e, be_bytes g))
decode-encode_fields (credit a b c) v10 bytes h = reads v10 h (cc (be_bytes c))
decode-encode_fields (credit a b c) v20 bytes h = reads v20 h (cc (be_bytes c))
decode-encode_fields (credit_request a b c) v20 bytes h = reads v20 h (cc (be_bytes c))
decode-encode_fields (credit_request_reply r a b c) v10 bytes h = reads v10 h (cc (be_bytes c))
decode-encode_fields (credit_request_reply r a b c) v20 bytes h = reads v20 h (cc (be_bytes c))
decode-encode_fields (get_socket_id n) v10 bytes h =
    let (same, read) = encoded_name (λ b. 0x09 ∷ b) n h in rw (← same, read)
decode-encode_fields (get_socket_id n) v20 bytes h =
    let (same, read) = encoded_name (λ b. 0x09 ∷ b) n h in rw (← same, read)
decode-encode_fields (get_socket_id_reply r s n) v10 bytes h = elim (Bool-cases (r == 0)) [
  | inl z ↦
      let (same, read) = encoded_name (λ b. 0x89 ∷ r ∷ s ∷ b) n (rw z at h) in rw (← same, z, read)
  | inr z ↦ reads v10 (rw z at h) (rw z)
]
decode-encode_fields (get_socket_id_reply r s n) v20 bytes h = elim (Bool-cases (r == 0)) [
  | inl z ↦
      let (same, read) = encoded_name (λ b. 0x89 ∷ r ∷ s ∷ b) n (rw z at h) in rw (← same, z, read)
  | inr z ↦ reads v20 (rw z at h) (rw z)
]
decode-encode_fields (get_service_name_reply r s n) v10 bytes h = elim (Bool-cases (r == 0)) [
  | inl z ↦
      let (same, read) = encoded_name (λ b. 0x8a ∷ r ∷ s ∷ b) n (rw z at h) in rw (← same, z, read)
  | inr z ↦ reads v10 (rw z at h) (rw z)
]
decode-encode_fields (get_service_name_reply r s n) v20 bytes h = elim (Bool-cases (r == 0)) [
  | inl z ↦
      let (same, read) = encoded_name (λ b. 0x8a ∷ r ∷ s ∷ b) n (rw z at h) in rw (← same, z, read)
  | inr z ↦ reads v20 (rw z at h) (rw z)
]
decode-encode_fields m v10 bytes h = reads v10 h refl
decode-encode_fields m v20 bytes h = reads v20 h refl

pub encode-encode_fields :
    (m : TransactionMessage) (rev : ProtocolRevision) {bytes : List ℕ}
    → encode m rev ≡ ok bytes
    → (encode_fields m rev ≡ ok bytes) × (length bytes ≤ 58)
unfolding encode
encode-encode_fields m rev h = ground arith

-- A message that was encoded is decoded, under the same revision, to what the revision carries of
-- it. Its fields may be any numbers: the two bytes of a field put together give the field.
pub decode-encode :
    (m : TransactionMessage) (rev : ProtocolRevision) (bytes : List ℕ)
    → encode m rev ≡ ok bytes
    → decode bytes rev ≡ ok (carried rev m)
decode-encode m rev bytes h = decode-encode_fields m rev bytes (encode-encode_fields m rev h).0
