-- ===== src/Transaction/Fields.antt =====
-- crates/reink-d4/src/transaction.rs: the field widths of what `TransactionMessage::decode` returns.
use reink_rust.Transaction.Canonical.{decoded_name, no_name}
use reink_rust.Base.{
  Bool-cases, Result, if◌then◌else◌, inl, inr, subst, ◌==◌, All, List, [], arith, ok, ◌∷◌, ◌≡◌, ℕ,
}
use reink_rust.Base.Bytes.{IsByte}
use reink_rust.Transaction.Bounds.{IsMessage}
use reink_rust.Transaction.Decode.{
  decode, decode_body, decode_get_socket_id, decode_get_socket_id_reply,
  decode_get_service_name_reply, decode_init, decode_init_reply, decode_open_channel,
  decode_open_channel_reply, decode_close_channel, decode_close_channel_reply, decode_credit,
  decode_credit_reply, decode_credit_request, decode_credit_request_reply, decode_exit,
  decode_exit_reply, decode_get_service_name, decode_error,
}
use reink_rust.Transaction.Names.{TransactionParseError}
use reink_rust.Transaction.Message.{
  get_socket_id, get_socket_id_reply, get_service_name_reply, ProtocolRevision, v10, v20,
  TransactionMessage,
}

module _ (m : TransactionMessage) where
  init-IsMessage : (body : List ℕ) → All IsByte body → decode_init body ≡ ok m → IsMessage m
  unfolding decode_init
  init-IsMessage (a ∷ []) v p = ground arith
  init-IsMessage _ v p = ground arith

  init_reply-IsMessage :
      (body : List ℕ) → All IsByte body → decode_init_reply body ≡ ok m → IsMessage m
  unfolding decode_init_reply
  init_reply-IsMessage (r ∷ a ∷ []) v p = ground arith
  init_reply-IsMessage _ v p = ground arith

  open_channel-IsMessage :
      (body : List ℕ) (rev : ProtocolRevision)
      → All IsByte body
      → decode_open_channel body rev ≡ ok m
      → IsMessage m
  unfolding decode_open_channel
  open_channel-IsMessage (a ∷ b ∷ c ∷ d ∷ e ∷ f ∷ g ∷ h ∷ []) v10 v p = ground arith
  open_channel-IsMessage (a ∷ b ∷ c ∷ d ∷ e ∷ f ∷ g ∷ h ∷ []) v20 v p = ground arith
  open_channel-IsMessage (a ∷ b ∷ c ∷ d ∷ e ∷ f ∷ g ∷ h ∷ i ∷ j ∷ []) v10 v p = ground arith
  open_channel-IsMessage (a ∷ b ∷ c ∷ d ∷ e ∷ f ∷ g ∷ h ∷ i ∷ j ∷ []) v20 v p = ground arith
  open_channel-IsMessage _ _ v p = ground arith

  open_channel_reply-IsMessage :
      (body : List ℕ) (rev : ProtocolRevision)
      → All IsByte body
      → decode_open_channel_reply body rev ≡ ok m
      → IsMessage m
  unfolding decode_open_channel_reply
  open_channel_reply-IsMessage (r ∷ a ∷ b ∷ c ∷ d ∷ e ∷ f ∷ g ∷ h ∷ []) v10 v p = ground arith
  open_channel_reply-IsMessage (r ∷ a ∷ b ∷ c ∷ d ∷ e ∷ f ∷ g ∷ h ∷ []) v20 v p = ground arith
  open_channel_reply-IsMessage (r ∷ a ∷ b ∷ c ∷ d ∷ e ∷ f ∷ g ∷ h ∷ i ∷ j ∷ []) v10 v p =
      ground arith
  open_channel_reply-IsMessage (r ∷ a ∷ b ∷ c ∷ d ∷ e ∷ f ∷ g ∷ h ∷ i ∷ j ∷ []) v20 v p =
      ground arith
  open_channel_reply-IsMessage _ _ v p = ground arith

  close_channel-IsMessage :
      (body : List ℕ) (rev : ProtocolRevision)
      → All IsByte body
      → decode_close_channel body rev ≡ ok m
      → IsMessage m
  unfolding decode_close_channel
  close_channel-IsMessage (a ∷ b ∷ []) v10 v p = ground arith
  close_channel-IsMessage (a ∷ b ∷ []) v20 v p = ground arith
  close_channel-IsMessage (a ∷ b ∷ c ∷ []) v10 v p = ground arith
  close_channel-IsMessage (a ∷ b ∷ c ∷ []) v20 v p = ground arith
  close_channel-IsMessage _ _ v p = ground arith

  close_channel_reply-IsMessage :
      (body : List ℕ) → All IsByte body → decode_close_channel_reply body ≡ ok m → IsMessage m
  unfolding decode_close_channel_reply
  close_channel_reply-IsMessage (r ∷ a ∷ b ∷ []) v p = ground arith
  close_channel_reply-IsMessage _ v p = ground arith

  credit-IsMessage : (body : List ℕ) → All IsByte body → decode_credit body ≡ ok m → IsMessage m
  unfolding decode_credit
  credit-IsMessage (a ∷ b ∷ c ∷ d ∷ []) v p = ground arith
  credit-IsMessage _ v p = ground arith

  credit_reply-IsMessage :
      (body : List ℕ) → All IsByte body → decode_credit_reply body ≡ ok m → IsMessage m
  unfolding decode_credit_reply
  credit_reply-IsMessage (r ∷ a ∷ b ∷ []) v p = ground arith
  credit_reply-IsMessage _ v p = ground arith

  credit_request-IsMessage :
      (body : List ℕ) (rev : ProtocolRevision)
      → All IsByte body
      → decode_credit_request body rev ≡ ok m
      → IsMessage m
  unfolding decode_credit_request
  credit_request-IsMessage (a ∷ b ∷ c ∷ d ∷ []) v10 v p = ground arith
  credit_request-IsMessage (a ∷ b ∷ c ∷ d ∷ []) v20 v p = ground arith
  credit_request-IsMessage (a ∷ b ∷ c ∷ d ∷ e ∷ f ∷ []) v10 v p = ground arith
  credit_request-IsMessage (a ∷ b ∷ c ∷ d ∷ e ∷ f ∷ []) v20 v p = ground arith
  credit_request-IsMessage _ _ v p = ground arith

  credit_request_reply-IsMessage :
      (body : List ℕ) → All IsByte body → decode_credit_request_reply body ≡ ok m → IsMessage m
  unfolding decode_credit_request_reply
  credit_request_reply-IsMessage (r ∷ a ∷ b ∷ c ∷ d ∷ []) v p = ground arith
  credit_request_reply-IsMessage _ v p = ground arith

  exit-IsMessage : (body : List ℕ) → All IsByte body → decode_exit body ≡ ok m → IsMessage m
  unfolding decode_exit
  exit-IsMessage [] v p = ground arith
  exit-IsMessage _ v p = ground arith

  exit_reply-IsMessage :
      (body : List ℕ) → All IsByte body → decode_exit_reply body ≡ ok m → IsMessage m
  unfolding decode_exit_reply
  exit_reply-IsMessage (r ∷ []) v p = ground arith
  exit_reply-IsMessage _ v p = ground arith

  get_service_name-IsMessage :
      (body : List ℕ) → All IsByte body → decode_get_service_name body ≡ ok m → IsMessage m
  unfolding decode_get_service_name
  get_service_name-IsMessage (s ∷ []) v p = ground arith
  get_service_name-IsMessage _ v p = ground arith

  error-IsMessage : (body : List ℕ) → All IsByte body → decode_error body ≡ ok m → IsMessage m
  unfolding decode_error
  error-IsMessage (a ∷ b ∷ c ∷ []) v p = ground arith
  error-IsMessage _ v p = ground arith

  get_socket_id-IsMessage :
      (body : List ℕ) → All IsByte body → decode_get_socket_id body ≡ ok m → IsMessage m
  unfolding decode_get_socket_id
  get_socket_id-IsMessage body v p =
      let (same, accepted) = decoded_name get_socket_id body p in subst IsMessage same v

  get_socket_id_reply-IsMessage :
      (body : List ℕ) → All IsByte body → decode_get_socket_id_reply body ≡ ok m → IsMessage m
  unfolding decode_get_socket_id_reply
  get_socket_id_reply-IsMessage (r ∷ s ∷ name) v p = elim (Bool-cases (r == 0)) [
    | inl z ↦
        let (same, accepted) = decoded_name (get_socket_id_reply r s) name (rw z at p) in
        subst IsMessage same (v.0, v.1.0, v.1.1)
    | inr z ↦
        let (empty, same) =
          no_name (get_socket_id_reply r s) r s name "GetSocketId reply" (rw z at p) in
        subst IsMessage same (v.0, v.1.0, tt)
  ]
  get_socket_id_reply-IsMessage _ v p = cc

  get_service_name_reply-IsMessage :
      (body : List ℕ) → All IsByte body → decode_get_service_name_reply body ≡ ok m → IsMessage m
  unfolding decode_get_service_name_reply
  get_service_name_reply-IsMessage (r ∷ s ∷ name) v p = elim (Bool-cases (r == 0)) [
    | inl z ↦
        let (same, accepted) = decoded_name (get_service_name_reply r s) name (rw z at p) in
        subst IsMessage same (v.0, v.1.0, v.1.1)
    | inr z ↦
        let (empty, same) =
          no_name (get_service_name_reply r s) r s name "GetServiceName reply" (rw z at p) in
        subst IsMessage same (v.0, v.1.0, tt)
  ]
  get_service_name_reply-IsMessage _ v p = cc

  -- One test of the chain in `decode_body`.
  either :
      (c k : ℕ) (here rest : Result TransactionParseError TransactionMessage)
      → (here ≡ ok m → IsMessage m)
      → (rest ≡ ok m → IsMessage m)
      → (if c == k then here else rest) ≡ ok m
      → IsMessage m
  either c k here rest yes_case no_case h = elim (Bool-cases (c == k)) [
    | inl t ↦ yes_case (rw t at h)
    | inr t ↦ no_case (rw t at h)
  ]

  decode_body-IsMessage :
      (c : ℕ) (body : List ℕ) (rev : ProtocolRevision)
      → All IsByte body
      → decode_body c body rev ≡ ok m
      → IsMessage m
  unfolding decode_body
  decode_body-IsMessage c body rev v = either c _ _ _ (init-IsMessage body v) (
      either c _ _ _ (init_reply-IsMessage body v) (
        either c _ _ _ (open_channel-IsMessage body rev v) (
          either c _ _ _ (open_channel_reply-IsMessage body rev v) (
            either c _ _ _ (close_channel-IsMessage body rev v) (
              either c _ _ _ (close_channel_reply-IsMessage body v) (
                either c _ _ _ (credit-IsMessage body v) (
                  either c _ _ _ (credit_reply-IsMessage body v) (
                    either c _ _ _ (credit_request-IsMessage body rev v) (
                      either c _ _ _ (credit_request_reply-IsMessage body v) (
                        either c _ _ _ (exit-IsMessage body v) (
                          either c _ _ _ (exit_reply-IsMessage body v) (
                            either c _ _ _ (get_socket_id-IsMessage body v) (
                              either c _ _ _ (get_socket_id_reply-IsMessage body v) (
                                either c _ _ _ (get_service_name-IsMessage body v) (
                                  either c _ _ _ (get_service_name_reply-IsMessage body v) (
                                    either c _ _ _ (error-IsMessage body v)
                                      (λ h. cc)))))))))))))))))

-- A message that was decoded from bytes, under either revision, has the field widths of the source:
-- its results, sockets and error codes are bytes and its sizes and credits 16-bit words.
pub decode-IsMessage :
    (bytes : List ℕ) (rev : ProtocolRevision) (m : TransactionMessage)
    → All IsByte bytes
    → decode bytes rev ≡ ok m
    → IsMessage m
unfolding decode
decode-IsMessage [] rev m v h = cc
decode-IsMessage (c ∷ body) rev m v h = decode_body-IsMessage m c body rev v.1 h
