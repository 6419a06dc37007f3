-- ===== src/Link/Returns.antt =====
-- crates/reink-d4/src/link.rs: how the loop of `next_packet` ends.
use reink_rust.Base.{
  All-take, Bool-cases, Result-cases, arith, if◌then◌else◌, inl, inr, ltb, ltb→lt, refl, subst, suc,
  take, zero, ◌*◌, ◌++◌, ◌-◌, ◌==◌, ◌∷◌, ◌≤◌, All, Bool, List, Result, [], ap, false, length,
  length-append, none, sym, true, ◌+◌, ◌<◌, ◌∙◌, ◌≡◌, ℕ,
}
use reink_rust.Base.Bytes.{IsByte}
use reink_rust.Packet.{
  Packet, PacketError, PacketDecoder, take_packet, push, decode_header, header_length,
}
use reink_rust.Packet.Codec.{decode_header-IsHeader}
use reink_rust.Packet.Framing.{push-IsIdle}
use reink_rust.Packet.Reassembly.{push_lossless, push-IsByte}
use reink_rust.Platform.Transport.{ByteTransport}
use reink_rust.Link.State.{D4Link, Outcome, ok, err, panicked, out_of_fuel}
use reink_rust.Link.Io.{
  read_buffer, read_fuel, max_consecutive_empty_reads, pop_or, read_loop, next_packet,
}
use reink_rust.Link.Keeps.{IsLink}
use reink_rust.Link.Reads.{ReadsBytes, with_decoder, after_push, read_loop-ok, read_loop-err}

-- A value or an error: not a panic, and not a loop that was cut off.
abbrev pub settles : {A : Type 0} → Outcome A → Bool
settles (ok a) = true
settles (err e) = true
settles panicked = false
settles out_of_fuel = false

-- A decoder that holds no whole packet has fewer than 65536 bytes.
idle_bound :
    (buffer : List ℕ)
    → All IsByte buffer
    → take_packet buffer ≡ Result.ok none
    → length buffer < 65536
unfolding take_packet
idle_bound buffer v h = elim (Bool-cases (ltb (length buffer) header_length)) [
  | inl small ↦ let few = ltb→lt _ _ small in omega arith
  | inr big ↦ elim (Result-cases (decode_header (take header_length buffer))) [
    | inl (header, e) ↦
        let w =
          (decode_header-IsHeader (take header_length buffer) header
            (All-take IsByte header_length buffer v) e).length in
        elim (Bool-cases (ltb (length buffer) header.length)) [
          | inl short ↦ let few = ltb→lt _ _ short in omega arith
          | inr enough ↦ cc (rw (big, e, enough) at h)
        ]
    | inr (x, e) ↦ cc (rw (big, e) at h)
  ]
]

-- A push that brings no packet leaves all the bytes in the buffer.
pushed_length :
    (d : PacketDecoder) (bytes : List ℕ)
    → All IsByte d.buffer
    → All IsByte bytes
    → (push d bytes).0 ≡ Result.ok []
    → (length (push d bytes).1.buffer ≡ length d.buffer + length bytes)
      × (length (push d bytes).1.buffer < 65536)
pushed_length d bytes v w h =
    let (_, u, same) = push_lossless d bytes [] v w h in
    (sym (ap length same) ∙ length-append d.buffer bytes, idle_bound _ u (push-IsIdle d bytes [] h))

next_empty :
    (empty : ℕ) → empty < 7 → (suc empty == max_consecutive_empty_reads) ≡ false → suc empty < 7
next_empty empty few more = ground arith

not_zero : (n : ℕ) → (n == 0) ≡ false → 0 < n
not_zero n h = ground arith

module _ {T : ByteTransport} where
  settles-if :
      (b : Bool) (m n : Outcome Packet × D4Link T)
      → (b ≡ true → settles m.0 ≡ true)
      → (b ≡ false → settles n.0 ≡ true)
      → settles (if b then m else n).0 ≡ true
  settles-if true m n h k = h refl
  settles-if false m n h k = k refl

  after_push-settles :
      (fuel : ℕ) (r : Result PacketError (List Packet)) (s : D4Link T)
      → s.received ≡ []
      → (r ≡ Result.ok [] → settles (read_loop fuel 0 s).0 ≡ true)
      → settles (after_push fuel r s).0 ≡ true
  after_push-settles fuel (Result.err e) s none_left k = refl
  after_push-settles fuel (Result.ok []) s none_left k =
      subst (λ l. settles (pop_or (l ++ []) (read_loop fuel 0) s).0 ≡ true) (sym none_left) (k refl)
  after_push-settles fuel (Result.ok (p ∷ ps)) s none_left k =
      subst (λ l. settles (pop_or (l ++ p ∷ ps) (read_loop fuel 0) s).0 ≡ true) (sym none_left) refl

  -- The rounds that are left: seven for each byte that an unfinished packet can still take, and
  -- those of the empty reads in a row.
  read_loop-settles :
      (fuel empty : ℕ) (s : D4Link T)
      → ReadsBytes T
      → IsLink s
      → s.received ≡ []
      → empty < 7
      → 7 * (65536 - length s.decoder.buffer) + (7 - empty) ≤ fuel
      → settles (read_loop fuel empty s).0 ≡ true
  read_loop-settles zero empty s b v none_left few enough = absurd (omega arith)
  read_loop-settles (suc fuel) empty s b v none_left few enough =
      let target = (T.read s.target read_buffer).1 in
      elim (Result-cases (T.read s.target read_buffer).0) [
        | inl (bytes, h) ↦
            let w = b.reads s.target read_buffer bytes h in
            subst (λ r. settles r.0 ≡ true) (sym (read_loop-ok fuel empty s bytes h))
              (settles-if (length bytes == 0) _ _
                (λ nothing.
                  settles-if (suc empty == max_consecutive_empty_reads) _ _ (λ last. refl)
                    (λ more.
                      read_loop-settles fuel (suc empty) _ b
                        (with_decoder s target s.decoder v v.buffered) none_left
                        (next_empty empty few more) (omega arith)))
                (λ something. after_push-settles fuel (push s.decoder bytes).0 _ none_left (λ e.
                  let (grown, bound) = pushed_length s.decoder bytes v.buffered w e in
                  let nonempty = not_zero (length bytes) something in
                  read_loop-settles fuel 0 _ b
                    (with_decoder s target (push s.decoder bytes).1 v
                      (push-IsByte s.decoder bytes v.buffered w))
                    none_left (omega arith) (omega arith))))
        | inr (x, h) ↦ subst (λ r. settles r.0 ≡ true) (sym (read_loop-err fuel empty s x h)) refl
      ]

  -- Over a transport whose reads give bytes, `next_packet` on a well-formed link comes to a packet or
  -- to an error, whatever the transport gives: its fuel is enough, and it does not panic.
  pub next_packet-settles :
      (s : D4Link T) → ReadsBytes T → IsLink s → settles (next_packet s).0 ≡ true
  unfolding next_packet
  next_packet-settles s b v = popped s.received refl
    where
      popped :
          (ps : List Packet)
          → s.received ≡ ps
          → settles (pop_or ps (read_loop read_fuel 0) s).0 ≡ true
      popped [] h = read_loop-settles read_fuel 0 s b v h (omega arith) (omega arith)
      popped (p ∷ ps) h = refl
