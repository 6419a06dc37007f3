-- ===== src/Link/Reads.antt =====
-- crates/reink-d4/src/link.rs: the invariant of a link under `next_packet`.
use reink_rust.Base.{
  All-append, Bool, Result-cases, false, if◌then◌else◌, inl, inr, length, refl, subst, sym, true,
  ◌++◌, ◌==◌, All, List, Result, [], suc, zero, ◌∷◌, ◌≡◌, ℕ,
}
use reink_rust.Base.Bytes.{IsByte}
use reink_rust.Packet.{PacketError, PacketDecoder, Packet, IsPacket, push}
use reink_rust.Packet.Reassembly.{push_lossless, push-IsByte}
use reink_rust.Platform.Transport.{ByteTransport, TransportError}
use reink_rust.Link.State.{D4Link, transport, packet, unexpected_eof, Outcome, err, M}
use reink_rust.Link.Io.{
  max_consecutive_empty_reads, read_fuel, read_buffer, pop_or, read_loop, next_packet,
}
use reink_rust.Link.Keeps.{IsLink, Keeps, Post}

-- What is assumed of a transport: a read gives bytes.
pub record ReadsBytes (T : ByteTransport) : Type 0 where
  pub reads :
      (t : T.Target) (capacity : ℕ) (bytes : List ℕ)
      → (T.read t capacity).0 ≡ Result.ok bytes
      → All IsByte bytes

module _ {T : ByteTransport} where
  -- What a step of a method promises of one state.
  abbrev pub Step : {A : Type 0} → (A → Type 0) → Outcome A × D4Link T → Type 0
  Step Q r = IsLink r.1 × Post Q r.0

  pop_or-Step :
      (ps : List Packet) (otherwise : M T Packet) (s : D4Link T)
      → IsLink s
      → All IsPacket ps
      → Step IsPacket (otherwise s)
      → Step IsPacket (pop_or ps otherwise s)
  pop_or-Step [] otherwise s v w k = k
  pop_or-Step (p ∷ rest) otherwise s v w k = (
    record { present = v.present; channels = v.channels; received = w.1; buffered = v.buffered },
    w.0,
  )

  pub with_decoder :
      (s : D4Link T) (target : T.Target) (decoder : PacketDecoder)
      → IsLink s
      → All IsByte decoder.buffer
      → IsLink (record s { target = target; decoder = decoder })
  with_decoder s target decoder v w = record {
    present = v.present;
    channels = v.channels;
    received = v.received;
    buffered = w;
  }

  Step-if :
      (b : Bool) (m n : Outcome Packet × D4Link T)
      → Step IsPacket m
      → Step IsPacket n
      → Step IsPacket (if b then m else n)
  Step-if true m n h k = h
  Step-if false m n h k = k

  -- What follows a push, once its packets are known.
  abbrev pub after_push : ℕ → Result PacketError (List Packet) → M T Packet
  after_push fuel (Result.err e) s = (err (packet e), s)
  after_push fuel (Result.ok packets) s = pop_or (s.received ++ packets) (read_loop fuel 0) s

  after_push-Step :
      (fuel : ℕ) (r : Result PacketError (List Packet)) (s : D4Link T)
      → IsLink s
      → ((packets : List Packet) → r ≡ Result.ok packets → All IsPacket packets)
      → Step IsPacket (read_loop fuel 0 s)
      → Step IsPacket (after_push fuel r s)
  after_push-Step fuel (Result.err e) s v w k = (v, tt)
  after_push-Step fuel (Result.ok packets) s v w k =
      pop_or-Step (s.received ++ packets) (read_loop fuel 0) s v
        (All-append IsPacket s.received packets v.received (w packets refl)) k

  pub read_loop-ok :
      (fuel empty : ℕ) (s : D4Link T) (bytes : List ℕ)
      → (T.read s.target read_buffer).0 ≡ Result.ok bytes
      → read_loop (suc fuel) empty s ≡ (
          if length bytes == 0
          then (if suc empty == max_consecutive_empty_reads
              then (err unexpected_eof, record s { target = (T.read s.target read_buffer).1 })
              else read_loop fuel
                  (suc empty)
                  (record s { target = (T.read s.target read_buffer).1 }))
          else after_push fuel (push s.decoder bytes).0 (record s {
            target = (T.read s.target read_buffer).1;
            decoder = (push s.decoder bytes).1;
          }))
  unfolding read_loop
  read_loop-ok fuel empty s bytes h = elim (Result-cases (push s.decoder bytes).0) [
    | inl (packets, e) ↦ rw (h, read_loop, e) refl
    | inr (x, e) ↦ rw (h, read_loop, e) refl
  ]

  pub read_loop-err :
      (fuel empty : ℕ) (s : D4Link T) (x : TransportError)
      → (T.read s.target read_buffer).0 ≡ Result.err x
      → read_loop (suc fuel) empty s
        ≡ (err (transport x), record s { target = (T.read s.target read_buffer).1 })
  unfolding read_loop
  read_loop-err fuel empty s x h = rw (h, read_loop) refl

  read_loop-Step :
      (fuel empty : ℕ) (s : D4Link T)
      → ReadsBytes T
      → IsLink s
      → Step IsPacket (read_loop fuel empty s)
  read_loop-Step zero empty s b v = unfold read_loop in (v, tt)
  read_loop-Step (suc fuel) empty s b v =
      let target = (T.read s.target read_buffer).1 in
      let moved = with_decoder s target s.decoder v v.buffered in
      elim (Result-cases (T.read s.target read_buffer).0) [
        | inl (bytes, h) ↦
            let w = b.reads s.target read_buffer bytes h in
            let pushed =
              with_decoder s target (push s.decoder bytes).1 v
                (push-IsByte s.decoder bytes v.buffered w) in
            subst (Step IsPacket) (sym (read_loop-ok fuel empty s bytes h)) (
              Step-if (length bytes == 0) _ _
                (Step-if (suc empty == max_consecutive_empty_reads) _ _ (moved, tt)
                  (read_loop-Step fuel (suc empty) _ b moved))
                (after_push-Step fuel (push s.decoder bytes).0 _ pushed
                  (λ packets e. (push_lossless s.decoder bytes packets v.buffered w e).0)
                  (read_loop-Step fuel 0 _ b pushed)))
        | inr (x, h) ↦ subst (Step IsPacket) (sym (read_loop-err fuel empty s x h)) (moved, tt)
      ]

  pub next_packet-Keeps : ReadsBytes T → Keeps {T = T} IsPacket next_packet
  unfolding next_packet
  next_packet-Keeps b = record {
    at = λ s v.
        pop_or-Step s.received (read_loop read_fuel 0) s v v.received
          (read_loop-Step read_fuel 0 s b v);
  }
