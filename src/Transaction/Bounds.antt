-- ===== src/Transaction/Bounds.antt =====
-- crates/reink-d4/src/transaction.rs: sizes and widths of encoded messages.
use reink_rust.Base.Bytes.{IsByte, IsU16}
use reink_rust.Base.{
  All, Bool-cases, List, Result, arith, err, if◌then◌else◌, inl, inr, length, le→ltb_false, ltb,
  none, ok, refl, some, subst, sym, ◌+◌, ◌==◌, ◌>>=◌, ◌∷◌, ◌≡◌, ◌≤◌, ℕ,
}
use reink_rust.Transaction.Names.{TransactionParseError, message_too_large, ascii}
use reink_rust.Transaction.Message.{
  ProtocolRevision, v10, v20, TransactionMessage, init, init_reply, open_channel,
  open_channel_reply, close_channel, close_channel_reply, credit, credit_reply, credit_request,
  credit_request_reply, exit, exit_reply, get_socket_id, get_socket_id_reply, get_service_name,
  get_service_name_reply, error,
}
use reink_rust.Transaction.Encode.{encode, encode_fields}

-- What a client sees of a result of `encode_fields`: at most 43 bytes, or an error about a name.
abbrev pub IsSmall : Result TransactionParseError (List ℕ) → Type 0
IsSmall (ok bytes) = length bytes ≤ 43
IsSmall (err (message_too_large n)) = ⊥
IsSmall (err e) = Unit

ascii-IsSmall :
    (f : List ℕ → List ℕ) (n : List ℕ)
    → (length (f n) ≤ 3 + length n)
    → IsSmall (ascii n >>= λ b. ok (f b))
unfolding ascii
ascii-IsSmall f n h = ground arith

pub encode_fields-IsSmall :
    (m : TransactionMessage) (rev : ProtocolRevision) → IsSmall (encode_fields m rev)
unfolding encode_fields
encode_fields-IsSmall (open_channel a b c d e i) v10 = omega arith
encode_fields-IsSmall (open_channel a b c d e i) v20 = omega arith
encode_fields-IsSmall (get_socket_id n) rev = ascii-IsSmall (λ b. 0x09 ∷ b) n (omega arith)
encode_fields-IsSmall (get_socket_id_reply r s n) rev = elim (Bool-cases (r == 0)) [
  | inl z ↦ rw z (ascii-IsSmall (λ b. 0x89 ∷ r ∷ s ∷ b) n (omega arith))
  | inr z ↦ rw z (omega arith)
]
encode_fields-IsSmall (get_service_name_reply r s n) rev = elim (Bool-cases (r == 0)) [
  | inl z ↦ rw z (ascii-IsSmall (λ b. 0x8a ∷ r ∷ s ∷ b) n (omega arith))
  | inr z ↦ rw z (omega arith)
]
encode_fields-IsSmall m v10 = omega arith
encode_fields-IsSmall m v20 = omega arith

small_passes :
    (r : Result TransactionParseError (List ℕ))
    → IsSmall r
    → (r >>= λ bytes.
        if ltb 58 (length bytes) then err (message_too_large (length bytes)) else ok bytes)
      ≡ r
small_passes (ok bytes) h = rw (le→ltb_false 58 (length bytes) (omega arith))
small_passes (err e) h = refl

pub encode_never_too_large :
    (m : TransactionMessage) (rev : ProtocolRevision)
    → (encode m rev ≡ encode_fields m rev) × IsSmall (encode m rev)
unfolding encode
encode_never_too_large m rev =
    let passes = small_passes (encode_fields m rev) (encode_fields-IsSmall m rev) in
    (passes, subst IsSmall (sym passes) (encode_fields-IsSmall m rev))

-- The field widths of the source: bytes and 16-bit words; a name is any string of bytes.
abbrev pub IsMessage : TransactionMessage → Type 0
IsMessage (init r) = Unit
IsMessage (init_reply a r) = IsByte a
IsMessage (open_channel a b c d e none) = IsByte a × IsByte b × IsU16 c × IsU16 d × IsU16 e
IsMessage (open_channel a b c d e (some i)) =
    IsByte a × IsByte b × IsU16 c × IsU16 d × IsU16 e × IsU16 i
IsMessage (open_channel_reply r a b c d e g) =
    IsByte r × IsByte a × IsByte b × IsU16 c × IsU16 d × IsU16 e × IsU16 g
IsMessage (close_channel a b) = IsByte a × IsByte b
IsMessage (close_channel_reply r a b) = IsByte r × IsByte a × IsByte b
IsMessage (credit a b c) = IsByte a × IsByte b × IsU16 c
IsMessage (credit_reply r a b) = IsByte r × IsByte a × IsByte b
IsMessage (credit_request a b c) = IsByte a × IsByte b × IsU16 c
IsMessage (credit_request_reply r a b c) = IsByte r × IsByte a × IsByte b × IsU16 c
IsMessage exit = Unit
IsMessage (exit_reply r) = IsByte r
IsMessage (get_socket_id n) = All IsByte n
IsMessage (get_socket_id_reply r s n) = IsByte r × IsByte s × All IsByte n
IsMessage (get_service_name s) = IsByte s
IsMessage (get_service_name_reply r s n) = IsByte r × IsByte s × All IsByte n
IsMessage (error a b c) = IsByte a × IsByte b × IsByte c

abbrev pub AreBytes : Result TransactionParseError (List ℕ) → Type 0
AreBytes (ok bytes) = All IsByte bytes
AreBytes (err e) = Unit

ascii-AreBytes :
    (f : List ℕ → List ℕ) (n : List ℕ) → All IsByte (f n) → AreBytes (ascii n >>= λ b. ok (f b))
unfolding ascii
ascii-AreBytes f n h = ground arith

pub encode_fields-AreBytes :
    (m : TransactionMessage) (rev : ProtocolRevision) → IsMessage m → AreBytes (encode_fields m rev)
unfolding encode_fields
encode_fields-AreBytes (init v10) rev v = omega arith
encode_fields-AreBytes (init v20) rev v = omega arith
encode_fields-AreBytes (init_reply a v10) rev v = omega arith
encode_fields-AreBytes (init_reply a v20) rev v = omega arith
encode_fields-AreBytes (open_channel a b c d e none) v10 v = omega arith
encode_fields-AreBytes (open_channel a b c d e (some i)) v10 v = omega arith
encode_fields-AreBytes (open_channel a b c d e none) v20 v = omega arith
encode_fields-AreBytes (open_channel a b c d e (some i)) v20 v = omega arith
encode_fields-AreBytes (get_socket_id n) rev v = ascii-AreBytes (λ b. 0x09 ∷ b) n (omega arith, v)
encode_fields-AreBytes (get_socket_id_reply r s n) rev v = elim (Bool-cases (r == 0)) [
  | inl z ↦ rw z (ascii-AreBytes (λ b. 0x89 ∷ r ∷ s ∷ b) n (omega arith, (v.0, (v.1, v.2))))
  | inr z ↦ rw z (omega arith)
]
encode_fields-AreBytes (get_service_name_reply r s n) rev v = elim (Bool-cases (r == 0)) [
  | inl z ↦ rw z (ascii-AreBytes (λ b. 0x8a ∷ r ∷ s ∷ b) n (omega arith, (v.0, (v.1, v.2))))
  | inr z ↦ rw z (omega arith)
]
encode_fields-AreBytes m v10 v = omega arith
encode_fields-AreBytes m v20 v = omega arith
