-- ===== src/Transaction/Canonical.antt =====
-- crates/reink-d4/src/transaction.rs: decoding the bytes of a message and encoding it again.
use reink_rust.Base.Text.{same}
use reink_rust.Base.Bytes.{IsByte}
use reink_rust.Base.{
  String, ◌>>◌, err, refl, ◌>>=◌, ==_iff, All, Bool-cases, List, Result, [], arith, if◌then◌else◌,
  inl, inr, ok, ◌==◌, ◌∙◌, ◌∷◌, ◌≡◌, ℕ,
}
use reink_rust.Transaction.Names.{TransactionParseError, ascii, ascii_from, ascii-ascii_from}
use reink_rust.Transaction.Message.{
  ProtocolRevision, v20, TransactionMessage, get_socket_id, get_socket_id_reply,
  get_service_name_reply,
}
use reink_rust.Transaction.Encode.{encode, encode_fields}
use reink_rust.Transaction.Decode.{
  exact_length, decode, decode_body, decode_init, decode_init_reply, decode_open_channel,
  decode_open_channel_reply, decode_close_channel, decode_close_channel_reply, decode_credit,
  decode_credit_reply, decode_credit_request, decode_credit_request_reply, decode_exit,
  decode_exit_reply, decode_get_socket_id, decode_get_socket_id_reply, decode_get_service_name,
  decode_get_service_name_reply, decode_error,
}
use reink_rust.Transaction.Bounds.{encode_never_too_large}

-- `m` is written as the bytes `c ∷ body`.
abbrev pub Writes : ProtocolRevision → ℕ → List ℕ → TransactionMessage → Type 0
Writes rev c body m = encode_fields m rev ≡ ok (c ∷ body)

-- A name that the decoder accepts is one that the encoder writes.
pub decoded_name :
    (f : List ℕ → TransactionMessage) (body : List ℕ) {m : TransactionMessage}
    → (ascii_from body >>= λ n. ok (f n)) ≡ ok m
    → (f body ≡ m) × (ascii body ≡ ok body)
decoded_name f body {m} h = go (ascii_from body) refl h
  where
    go :
        (r : Result TransactionParseError (List ℕ))
        → ascii_from body ≡ r
        → (r >>= λ n. ok (f n)) ≡ ok m
        → (f body ≡ m) × (ascii body ≡ ok body)
    go (ok n) e k = let (same, accepted) = ascii-ascii_from body n e in (cc, rw same at accepted)
    go (err x) e k = cc

-- A reply of failure carries no name.
pub no_name :
    (f : List ℕ → TransactionMessage) (r s : ℕ) (name : List ℕ) (label : String)
    {m : TransactionMessage}
    → (exact_length (r ∷ s ∷ name) 2 label >> ok [] >>= λ n. ok (f n)) ≡ ok m
    → (name ≡ []) × (f [] ≡ m)
no_name f r s [] label h = (refl, cc)
no_name f r s (b ∷ name) label h = ground arith

-- The messages that both revisions write in the same way.
module _ (rev : ProtocolRevision) (m : TransactionMessage) where
  pub from_init : (body : List ℕ) → decode_init body ≡ ok m → Writes rev 0x00 body m
  unfolding decode_init encode_fields
  from_init [] h = cc
  from_init (a ∷ []) h = ground arith
  from_init (a ∷ b ∷ body) h = ground arith

  pub from_init_reply : (body : List ℕ) → decode_init_reply body ≡ ok m → Writes rev 0x80 body m
  unfolding decode_init_reply encode_fields
  from_init_reply (r ∷ a ∷ []) h = ground arith
  from_init_reply _ h = ground arith

  pub from_close_channel_reply :
      (body : List ℕ) → decode_close_channel_reply body ≡ ok m → Writes rev 0x82 body m
  unfolding decode_close_channel_reply encode_fields
  from_close_channel_reply (r ∷ a ∷ b ∷ []) p = ground arith
  from_close_channel_reply _ p = ground arith

  pub from_credit :
      (body : List ℕ) → All IsByte body → decode_credit body ≡ ok m → Writes rev 0x03 body m
  unfolding decode_credit encode_fields
  from_credit (a ∷ b ∷ c ∷ d ∷ []) v p = ground arith
  from_credit _ v p = ground arith

  pub from_credit_reply : (body : List ℕ) → decode_credit_reply body ≡ ok m → Writes rev 0x83 body m
  unfolding decode_credit_reply encode_fields
  from_credit_reply (r ∷ a ∷ b ∷ []) p = ground arith
  from_credit_reply _ p = ground arith

  pub from_credit_request_reply :
      (body : List ℕ)
      → All IsByte body
      → decode_credit_request_reply body ≡ ok m
      → Writes rev 0x84 body m
  unfolding decode_credit_request_reply encode_fields
  from_credit_request_reply (r ∷ a ∷ b ∷ c ∷ d ∷ []) v p = ground arith
  from_credit_request_reply _ v p = ground arith

  pub from_exit : (body : List ℕ) → decode_exit body ≡ ok m → Writes rev 0x08 body m
  unfolding decode_exit encode_fields
  from_exit [] p = ground arith
  from_exit (a ∷ body) p = ground arith

  pub from_exit_reply : (body : List ℕ) → decode_exit_reply body ≡ ok m → Writes rev 0x88 body m
  unfolding decode_exit_reply encode_fields
  from_exit_reply (r ∷ []) p = ground arith
  from_exit_reply _ p = ground arith

  pub from_get_socket_id :
      (body : List ℕ) → decode_get_socket_id body ≡ ok m → Writes rev 0x09 body m
  unfolding decode_get_socket_id encode_fields
  from_get_socket_id body p =
      let (same, accepted) = decoded_name get_socket_id body p in rw (← same, accepted)

  pub from_get_socket_id_reply :
      (body : List ℕ) → decode_get_socket_id_reply body ≡ ok m → Writes rev 0x89 body m
  unfolding decode_get_socket_id_reply encode_fields
  from_get_socket_id_reply (r ∷ s ∷ name) p = elim (Bool-cases (r == 0)) [
    | inl z ↦
        let (same, accepted) = decoded_name (get_socket_id_reply r s) name (rw z at p) in
        rw (← same, z, accepted)
    | inr z ↦
        let (empty, same) =
          no_name (get_socket_id_reply r s) r s name "GetSocketId reply" (rw z at p) in
        rw (← same, empty, z)
  ]
  from_get_socket_id_reply _ p = cc

  pub from_get_service_name :
      (body : List ℕ) → decode_get_service_name body ≡ ok m → Writes rev 0x0a body m
  unfolding decode_get_service_name encode_fields
  from_get_service_name (s ∷ []) p = ground arith
  from_get_service_name _ p = ground arith

  pub from_get_service_name_reply :
      (body : List ℕ) → decode_get_service_name_reply body ≡ ok m → Writes rev 0x8a body m
  unfolding decode_get_service_name_reply encode_fields
  from_get_service_name_reply (r ∷ s ∷ name) p = elim (Bool-cases (r == 0)) [
    | inl z ↦
        let (same, accepted) = decoded_name (get_service_name_reply r s) name (rw z at p) in
        rw (← same, z, accepted)
    | inr z ↦
        let (empty, same) =
          no_name (get_service_name_reply r s) r s name "GetServiceName reply" (rw z at p) in
        rw (← same, empty, z)
  ]
  from_get_service_name_reply _ p = cc

  pub from_error : (body : List ℕ) → decode_error body ≡ ok m → Writes rev 0x7f body m
  unfolding decode_error encode_fields
  from_error (a ∷ b ∷ c ∷ []) p = ground arith
  from_error _ p = ground arith

module _ (m : TransactionMessage) where
  from_open_channel :
      (body : List ℕ)
      → All IsByte body
      → decode_open_channel body v20 ≡ ok m
      → Writes v20 0x01 body m
  unfolding decode_open_channel encode_fields
  from_open_channel (a ∷ b ∷ c ∷ d ∷ e ∷ f ∷ g ∷ h ∷ []) v p = ground arith
  from_open_channel _ v p = ground arith

  from_open_channel_reply :
      (body : List ℕ)
      → All IsByte body
      → decode_open_channel_reply body v20 ≡ ok m
      → Writes v20 0x81 body m
  unfolding decode_open_channel_reply encode_fields
  from_open_channel_reply (r ∷ a ∷ b ∷ c ∷ d ∷ e ∷ f ∷ g ∷ h ∷ i ∷ j ∷ []) v p = ground arith
  from_open_channel_reply _ v p = ground arith

  from_close_channel :
      (body : List ℕ) → decode_close_channel body v20 ≡ ok m → Writes v20 0x02 body m
  unfolding decode_close_channel encode_fields
  from_close_channel (a ∷ b ∷ []) p = ground arith
  from_close_channel _ p = ground arith

  from_credit_request :
      (body : List ℕ)
      → All IsByte body
      → decode_credit_request body v20 ≡ ok m
      → Writes v20 0x04 body m
  unfolding decode_credit_request encode_fields
  from_credit_request (a ∷ b ∷ c ∷ d ∷ []) v p = ground arith
  from_credit_request _ v p = ground arith

-- One test of the chain in `decode_body`.
abbrev pub chain_step :
    (W : ℕ → Type 0) (c k : ℕ) (m : TransactionMessage)
    (here rest : Result TransactionParseError TransactionMessage)
    → (here ≡ ok m → W k)
    → (rest ≡ ok m → W c)
    → (if c == k then here else rest) ≡ ok m
    → W c
chain_step W c k m here rest yes_case no_case h = elim (Bool-cases (c == k)) [
  | inl t ↦ rw ((==_iff c k).0 t) (yes_case (rw t at h))
  | inr t ↦ no_case (rw t at h)
]

decode_body-canonical :
    (c : ℕ) (body : List ℕ) (m : TransactionMessage)
    → All IsByte body
    → decode_body c body v20 ≡ ok m
    → Writes v20 c body m
unfolding decode_body
decode_body-canonical c body m v =
    chain_step (λ c. Writes v20 c body m) c _ m _ _ (from_init v20 m body)
      (chain_step (λ c. Writes v20 c body m) c _ m _ _ (from_init_reply v20 m body)
        (chain_step (λ c. Writes v20 c body m) c _ m _ _ (from_open_channel m body v)
          (chain_step (λ c. Writes v20 c body m) c _ m _ _ (from_open_channel_reply m body v)
            (chain_step (λ c. Writes v20 c body m) c _ m _ _ (from_close_channel m body)
              (chain_step (λ c. Writes v20 c body m) c _ m _ _ (from_close_channel_reply v20 m body)
                (chain_step (λ c. Writes v20 c body m) c _ m _ _ (from_credit v20 m body v)
                  (chain_step (λ c. Writes v20 c body m) c _ m _ _ (from_credit_reply v20 m body)
                    (chain_step (λ c. Writes v20 c body m) c _ m _ _ (from_credit_request m body v)
                      (chain_step (λ c. Writes v20 c body m) c _ m _ _
                        (from_credit_request_reply v20 m body v)
                        (chain_step (λ c. Writes v20 c body m) c _ m _ _ (from_exit v20 m body)
                          (chain_step (λ c. Writes v20 c body m) c _ m _ _
                            (from_exit_reply v20 m body)
                            (chain_step (λ c. Writes v20 c body m) c _ m _ _
                              (from_get_socket_id v20 m body)
                              (chain_step (λ c. Writes v20 c body m) c _ m _ _
                                (from_get_socket_id_reply v20 m body)
                                (chain_step (λ c. Writes v20 c body m) c _ m _ _
                                  (from_get_service_name v20 m body)
                                  (chain_step (λ c. Writes v20 c body m) c _ m _ _
                                    (from_get_service_name_reply v20 m body)
                                    (chain_step (λ c. Writes v20 c body m) c _ m _ _
                                      (from_error v20 m body) (λ h. cc)))))))))))))))))

-- Under V20 the decoder accepts no second spelling: a string of bytes that decodes to a message is
-- the encoding of that message.
pub encode-decode :
    (bytes : List ℕ) (m : TransactionMessage)
    → All IsByte bytes
    → decode bytes v20 ≡ ok m
    → encode m v20 ≡ ok bytes
unfolding decode
encode-decode [] m v h = cc
encode-decode (c ∷ body) m v h =
    (encode_never_too_large m v20).0 ∙ decode_body-canonical c body m v.1 h
