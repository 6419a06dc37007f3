-- ===== src/Transaction/Tests.antt =====
-- The transaction codec's theorems at concrete messages.
use reink_rust.Base.{[], arith, none, ok, refl, some, ◌∷◌, ◌≡◌}
use reink_rust.Transaction.{
  from_byte, decode_init, decode_body, init, v20, open_channel, encode, encode_fields, decode,
}
use reink_rust.Transaction.RoundTrip.{decode-encode}
use reink_rust.Transaction.Bounds.{IsMessage}
use reink_rust.Transaction.Fields.{decode-IsMessage}
use reink_rust.Transaction.Canonical.{encode-decode}

encoded :
    encode (open_channel 2 2 256 256 0 (some 0)) v20
    ≡ ok (0x01 ∷ 2 ∷ 2 ∷ 1 ∷ 0 ∷ 1 ∷ 0 ∷ 0 ∷ 0 ∷ [])
unfolding encode encode_fields
encoded = refl

-- Under V20 an OpenChannel has no initial credit: it comes back with `none`.
decode-encode_example :
    decode (0x01 ∷ 2 ∷ 2 ∷ 1 ∷ 0 ∷ 1 ∷ 0 ∷ 0 ∷ 0 ∷ []) v20 ≡ ok (open_channel 2 2 256 256 0 none)
decode-encode_example =
    decode-encode (open_channel 2 2 256 256 0 (some 0)) v20
      (0x01 ∷ 2 ∷ 2 ∷ 1 ∷ 0 ∷ 1 ∷ 0 ∷ 0 ∷ 0 ∷ []) encoded

decoded : decode (0 ∷ 0x20 ∷ []) v20 ≡ ok (init v20)
unfolding decode decode_body decode_init from_byte
decoded = refl

encode-decode_example : encode (init v20) v20 ≡ ok (0 ∷ 0x20 ∷ [])
encode-decode_example = encode-decode (0 ∷ 0x20 ∷ []) (init v20) (omega arith) decoded

init-IsMessage : IsMessage (init v20)
init-IsMessage = decode-IsMessage (0 ∷ 0x20 ∷ []) v20 (init v20) (omega arith) decoded
