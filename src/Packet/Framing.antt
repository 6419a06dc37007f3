-- ===== src/Packet/Framing.antt =====
-- crates/reink-d4/src/packet.rs: `PacketDecoder::push` as the reader of a stream.
use reink_rust.Base.{
  suc, append-nil, none, List, Result, [], ap, append_assoc, arith, err, length, ok, refl, sym,
  ◌++◌, ◌∙◌, ◌∷◌, ◌≡◌, ℕ,
}
use reink_rust.Packet.{Packet, PacketError, PacketDecoder, push, take_packet, drained, new_decoder}
use reink_rust.Packet.Drain.{
  drain-idle, drain_idle_buffer, prepend, drain_acc, drain-append, drain-append_err,
}

-- The packets of a second result behind those of a first one.
abbrev pub extend :
    List Packet
    → Result PacketError (List Packet) × PacketDecoder
    → Result PacketError (List Packet) × PacketDecoder
extend acc (ok ps, d) = (ok (acc ++ ps), d)
extend acc (err e, d) = (err e, d)

-- A push loop like that of `next_packet`: each read is pushed, and the packets are collected.
pub feed : PacketDecoder → List (List ℕ) → Result PacketError (List Packet) × PacketDecoder
feed d [] = (ok [], d)
feed d (chunk ∷ chunks) = elim (push d chunk).0 [
  | ok ps ↦ extend ps (feed (push d chunk).1 chunks)
  | err e ↦ (err e, (push d chunk).1)
]

abbrev pub decoded :
    Result PacketError (List Packet) × List ℕ → Result PacketError (List Packet) × PacketDecoder
decoded r = (r.0, record { buffer = r.1 })

pub push-drain :
    (d : PacketDecoder) (bytes : List ℕ)
    → push d bytes ≡ decoded (drained (suc (length (d.buffer ++ bytes))) (d.buffer ++ bytes) [])
unfolding push
push-drain d bytes = refl

decoded-prepend :
    (acc : List Packet) (r : Result PacketError (List Packet) × List ℕ)
    → decoded (prepend acc r) ≡ extend acc (decoded r)
decoded-prepend acc (ok ps, rest) = refl
decoded-prepend acc (err e, rest) = refl

-- Two pushes in a row are one push of both chunks together: the cut between them does not show.
pub push-append :
    (d d' : PacketDecoder) (a b : List ℕ) (ps : List Packet)
    → push d a ≡ (ok ps, d')
    → push d (a ++ b) ≡ extend ps (push d' b)
push-append d d' a b ps h =
    let cut : drained (suc (length (d.buffer ++ a))) (d.buffer ++ a) [] ≡ (ok ps, d'.buffer) =
      ap (λ r. (r.0, r.1.buffer)) (sym (push-drain d a) ∙ h) in
    push-drain d (a ++ b)
    ∙ ap decoded (
        ap (λ l. drained (suc (length l)) l []) (sym (append_assoc d.buffer a b))
        ∙ drain-append _ _ _ (d.buffer ++ a) b [] ps d'.buffer (omega arith) (omega arith)
            (omega arith) cut
        ∙ drain_acc _ (d'.buffer ++ b) ps)
    ∙ decoded-prepend ps (drained (suc (length (d'.buffer ++ b))) (d'.buffer ++ b) [])
    ∙ ap (extend ps) (sym (push-drain d' b))

-- A framing error is found in the same place, however many bytes are pushed with the bad ones.
pub push-append_err :
    (d : PacketDecoder) (a b : List ℕ) (x : PacketError)
    → (push d a).0 ≡ err x
    → (push d (a ++ b)).0 ≡ err x
push-append_err d a b x h =
    let found : (drained (suc (length (d.buffer ++ a))) (d.buffer ++ a) []).0 ≡ err x =
      ap (λ r. r.0) (sym (push-drain d a)) ∙ h in
    ap (λ r. r.0) (push-drain d (a ++ b))
    ∙ ap (λ l. (drained (suc (length l)) l []).0) (sym (append_assoc d.buffer a b))
    ∙ drain-append_err _ _ (d.buffer ++ a) b [] x
        (drained (suc (length (d.buffer ++ a))) (d.buffer ++ a) []).1 (omega arith) (omega arith)
        (λ i. (found i, (drained (suc (length (d.buffer ++ a))) (d.buffer ++ a) []).1))

extend-extend :
    (a b : List Packet) (r : Result PacketError (List Packet) × PacketDecoder)
    → extend a (extend b r) ≡ extend (a ++ b) r
extend-extend a b (ok ps, d) = rw (append_assoc a b ps)
extend-extend a b (err e, d) = refl

-- The decoder after a push that succeeded, or a new one, holds no whole packet.
abbrev pub IsIdle : PacketDecoder → Type 0
IsIdle d = take_packet d.buffer ≡ ok none

pub new_decoder-IsIdle : IsIdle new_decoder
unfolding take_packet
new_decoder-IsIdle = refl

pub drained-push :
    (d : PacketDecoder) (bytes : List ℕ) (ps : List Packet)
    → (push d bytes).0 ≡ ok ps
    → drained (suc (length (d.buffer ++ bytes))) (d.buffer ++ bytes) []
      ≡ (ok ps, (push d bytes).1.buffer)
unfolding push
drained-push d bytes ps h =
    λ i. (h i, (drained (suc (length (d.buffer ++ bytes))) (d.buffer ++ bytes) []).1)

pub push-IsIdle :
    (d : PacketDecoder) (bytes : List ℕ) (ps : List Packet)
    → (push d bytes).0 ≡ ok ps
    → IsIdle (push d bytes).1
push-IsIdle d bytes ps h =
    drain-idle _ (d.buffer ++ bytes) [] ps _ (omega arith) (drained-push d bytes ps h)

push_nil : (d : PacketDecoder) → IsIdle d → push d [] ≡ (ok [], d)
push_nil d idle =
    push-drain d []
    ∙ ap decoded (
        ap (λ l. drained (suc (length l)) l []) (append-nil d.buffer)
        ∙ drain_idle_buffer (suc (length d.buffer)) d.buffer [] idle)

-- The bytes of several reads.
abbrev pub stream : List (List ℕ) → List ℕ
stream [] = []
stream (chunk ∷ chunks) = chunk ++ stream chunks

-- Two runs agree: the same packets and decoder, or the same error.
abbrev pub Agree :
    Result PacketError (List Packet) × PacketDecoder
    → Result PacketError (List Packet) × PacketDecoder
    → Type 0
Agree (ok ps, d) s = (ok ps, d) ≡ s
Agree (err e, d) s = err e ≡ s.0

Agree-extend :
    (acc : List Packet) (r s : Result PacketError (List Packet) × PacketDecoder)
    → Agree r s
    → Agree (extend acc r) (extend acc s)
Agree-extend acc (ok ps, d) s a = ap (extend acc) a
Agree-extend acc (err e, d) (ok ps, d') a = cc
Agree-extend acc (err e, d) (err e', d') a = a

split_push :
    (d : PacketDecoder) (a b : List ℕ) (ps : List Packet)
    → (push d a).0 ≡ ok ps
    → push d (a ++ b) ≡ extend ps (push (push d a).1 b)
split_push d a b ps h = push-append d (push d a).1 a b ps (λ i. (h i, (push d a).1))

feed_ok :
    (d : PacketDecoder) (chunk : List ℕ) (chunks : List (List ℕ)) (ps : List Packet)
    → (push d chunk).0 ≡ ok ps
    → feed d (chunk ∷ chunks) ≡ extend ps (feed (push d chunk).1 chunks)
unfolding feed
feed_ok d chunk chunks ps h = rw (h, feed)

feed_err :
    (d : PacketDecoder) (chunk : List ℕ) (chunks : List (List ℕ)) (x : PacketError)
    → (push d chunk).0 ≡ err x
    → feed d (chunk ∷ chunks) ≡ (err x, (push d chunk).1)
unfolding feed
feed_err d chunk chunks x h = rw (h, feed)

-- From a decoder that holds no whole packet, feeding a stream in reads agrees with pushing it whole,
-- errors included, whatever the cuts are.
pub feed-push :
    (chunks : List (List ℕ)) (d : PacketDecoder)
    → IsIdle d
    → Agree (feed d chunks) (push d (stream chunks))
unfolding feed
feed-push [] d idle = sym (push_nil d idle)
feed-push (chunk ∷ chunks) d idle = go (push d chunk).0 refl (feed-push chunks (push d chunk).1)
  where
    go :
        (r : Result PacketError (List Packet))
        → (push d chunk).0 ≡ r
        → (IsIdle (push d chunk).1
            → Agree (feed (push d chunk).1 chunks) (push (push d chunk).1 (stream chunks)))
        → Agree (feed d (chunk ∷ chunks)) (push d (chunk ++ stream chunks))
    go (ok ps) h ih =
        rw (feed_ok d chunk chunks ps h, split_push d chunk (stream chunks) ps h)
          (Agree-extend ps _ _ (ih (push-IsIdle d chunk ps h)))
    go (err x) h ih =
        rw (feed_err d chunk chunks x h) (sym (push-append_err d chunk (stream chunks) x h))
