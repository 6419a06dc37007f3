-- ===== src/Packet/Reassembly.antt =====
-- crates/reink-d4/src/packet.rs: encoded packets through the decoder.
use reink_rust.Base.Text.{same}
use reink_rust.Base.Bytes.{IsByte}
use reink_rust.Base.{
  All-append, All, List, Result, [], ap, append-nil, append_assoc, arith, err, inl, inr, length,
  length-append, none, ok, refl, suc, sym, zero, ◌++◌, ◌∙◌, ◌∷◌, ◌≡◌, ◌≤◌, ℕ,
}
use reink_rust.Packet.{
  Packet, PacketError, PacketDecoder, IsPacket, push, take_packet, drained, encode, new_decoder,
}
use reink_rust.Packet.Codec.{length-encode}
use reink_rust.Packet.Round.{take_cases, take_packet-IsPacket, take_packet-encode}
use reink_rust.Packet.Drain.{
  drain_idle_buffer, drain_packet, drain_zero, drain_err, drain_break, ok_parts,
}
use reink_rust.Packet.Framing.{
  push-drain, new_decoder-IsIdle, stream, feed, Agree, feed-push, push-drain, drained-push,
}

-- The bytes of several packets, one behind the other.
abbrev pub encode_all : List Packet → List ℕ
encode_all [] = []
encode_all (p ∷ ps) = encode p ++ encode_all ps

drain-encode_all :
    (f : ℕ) (ps acc : List Packet) (rest : List ℕ)
    → All IsPacket ps
    → take_packet rest ≡ ok none
    → length (encode_all ps ++ rest) ≤ f
    → drained f (encode_all ps ++ rest) acc ≡ (ok (acc ++ ps), rest)
drain-encode_all f [] acc rest v idle h = rw append-nil (drain_idle_buffer f rest acc idle)
drain-encode_all zero (p ∷ ps) acc rest v idle h = absurd (
    omega (
      arith,
      length-append (encode p ++ encode_all ps) rest,
      length-append (encode p) (encode_all ps),
      length-encode p,
    ))
drain-encode_all (suc f) (p ∷ ps) acc rest v idle h =
    ap (λ l. drained (suc f) l acc) (append_assoc (encode p) (encode_all ps) rest)
    ∙ drain_packet f _ acc (take_packet-encode p (encode_all ps ++ rest) v.0)
    ∙ drain-encode_all f ps (acc ++ p ∷ []) rest v.1 idle (
        omega (
          arith,
          length-append (encode p ++ encode_all ps) rest,
          length-append (encode p) (encode_all ps),
          length-append (encode_all ps) rest,
          length-encode p,
        ))
    ∙ ap (λ ps'. (ok ps', rest)) (append_assoc acc (p ∷ []) ps)

push-encode_all :
    (ps : List Packet) (rest : List ℕ)
    → All IsPacket ps
    → take_packet rest ≡ ok none
    → push new_decoder (encode_all ps ++ rest) ≡ (ok ps, record { buffer = rest })
push-encode_all ps rest v idle =
    push-drain new_decoder (encode_all ps ++ rest)
    ∙ ap (λ (r : Result PacketError (List Packet) × List ℕ). (r.0, record { buffer = r.1 }))
        (drain-encode_all _ ps [] rest v idle (omega arith))

-- A stream of encoded packets and an unfinished one behind them, cut into reads in any way, comes
-- back as those packets, in order and once each, with the unfinished bytes kept.
pub feed-encode_all :
    (ps : List Packet) (rest : List ℕ) (chunks : List (List ℕ))
    → All IsPacket ps
    → take_packet rest ≡ ok none
    → stream chunks ≡ encode_all ps ++ rest
    → feed new_decoder chunks ≡ (ok ps, record { buffer = rest })
feed-encode_all ps rest chunks v idle h =
    agree_ok _ _ _ (feed-push chunks new_decoder new_decoder-IsIdle)
      (ap (push new_decoder) h ∙ push-encode_all ps rest v idle)
  where
    agree_ok :
        (r s : Result PacketError (List Packet) × PacketDecoder) (t : List Packet × PacketDecoder)
        → Agree r s
        → s ≡ (ok t.0, t.1)
        → r ≡ (ok t.0, t.1)
    agree_ok (ok qs, d) s t a e = a ∙ e
    agree_ok (err x, d) s t a e = cc

encode_all-append : (ps qs : List Packet) → encode_all (ps ++ qs) ≡ encode_all ps ++ encode_all qs
encode_all-append [] qs = refl
encode_all-append (p ∷ ps) qs =
    ap (λ l. encode p ++ l) (encode_all-append ps qs)
    ∙ sym (append_assoc (encode p) (encode_all ps) (encode_all qs))

-- The bytes before a round of the loop are those after it.
round_bytes :
    (acc : List Packet) (p : Packet) (r : List ℕ)
    → encode_all acc ++ (encode p ++ r) ≡ encode_all (acc ++ p ∷ []) ++ r
round_bytes acc p r = simp (encode_all-append, append_assoc, append-nil)

drain_lossless :
    (f : ℕ) (buffer : List ℕ) (acc out : List Packet) (rest : List ℕ)
    → All IsByte buffer
    → All IsPacket acc
    → drained f buffer acc ≡ (ok out, rest)
    → All IsPacket out × All IsByte rest × (encode_all acc ++ buffer ≡ encode_all out ++ rest)
drain_lossless zero buffer acc out rest v w e =
    let (same, left) = ok_parts (sym (drain_zero buffer acc) ∙ e) in
    rw (← same, ← left) (w, v, refl)
drain_lossless (suc f) buffer acc out rest v w e = elim (take_cases buffer) [
  | inl (x, t) ↦ cc (drain_err f buffer acc t)
  | inr (inl t) ↦
      let (same, left) = ok_parts (sym (drain_break f buffer acc t) ∙ e) in
      rw (← same, ← left) (w, v, refl)
  | inr (inr (p, r, t)) ↦
      let (vp, vr, cut) = take_packet-IsPacket buffer v t in
      let (a, b, c) =
        drain_lossless f r (acc ++ p ∷ []) out rest vr (All-append IsPacket acc (p ∷ []) w (vp, tt))
          (sym (drain_packet f buffer acc t) ∙ e) in
      (a, b, ap (λ l. encode_all acc ++ l) cut ∙ round_bytes acc p r ∙ c)
]

-- A push that succeeds returns well-formed packets only, and neither loses nor invents a byte: what
-- was buffered and what was pushed are the encodings of the packets and what is buffered now.
pub push_lossless :
    (d : PacketDecoder) (bytes : List ℕ) (ps : List Packet)
    → All IsByte d.buffer
    → All IsByte bytes
    → (push d bytes).0 ≡ ok ps
    → All IsPacket ps
      × All IsByte (push d bytes).1.buffer
      × (d.buffer ++ bytes ≡ encode_all ps ++ (push d bytes).1.buffer)
push_lossless d bytes ps v w h =
    drain_lossless _ (d.buffer ++ bytes) [] ps _ (All-append IsByte d.buffer bytes v w) tt
      (drained-push d bytes ps h)

drain_rest :
    (f : ℕ) (buffer : List ℕ) (acc : List Packet)
    → All IsByte buffer
    → All IsByte (drained f buffer acc).1
drain_rest zero buffer acc v = rw (drain_zero buffer acc) v
drain_rest (suc f) buffer acc v = elim (take_cases buffer) [
  | inl (x, t) ↦ rw (drain_err f buffer acc t) v
  | inr (inl t) ↦ rw (drain_break f buffer acc t) v
  | inr (inr (p, r, t)) ↦
      let (vp, vr, cut) = take_packet-IsPacket buffer v t in
      rw (drain_packet f buffer acc t) (drain_rest f r (acc ++ p ∷ []) vr)
]

-- However a push ends, what is buffered after it is made of bytes.
pub push-IsByte :
    (d : PacketDecoder) (bytes : List ℕ)
    → All IsByte d.buffer
    → All IsByte bytes
    → All IsByte (push d bytes).1.buffer
push-IsByte d bytes v w =
    rw (push-drain d bytes)
      (drain_rest _ (d.buffer ++ bytes) [] (All-append IsByte d.buffer bytes v w))
