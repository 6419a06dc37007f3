-- ===== src/Packet/Ends.antt =====
-- crates/reink-d4/src/packet.rs: the loop of `PacketDecoder::push` ends.
use reink_rust.Base.{
  err, ◌<◌, ◌∙◌, List, Result, [], arith, inl, inr, length, ok, refl, suc, zero, ◌++◌, ◌∷◌, ◌≡◌, ℕ,
}
use reink_rust.Packet.{
  drained, Packet, PacketDecoder, PacketError, take_packet, drain, drain_round, continued, ended,
  push,
}
use reink_rust.Packet.Round.{take_cases, take_packet-shorter}

-- The loop without fuel: this is what it comes to, if its rounds go on until one of them ends it.
pub data Ends : List ℕ → List Packet → Result PacketError (List Packet) × List ℕ → Type 0 where
  last_round :
      {buffer rest : List ℕ} {packets : List Packet} {result : Result PacketError (List Packet)}
      → drain_round (take_packet buffer) buffer packets ≡ ended result rest
      → Ends buffer packets (result, rest)
  next_round :
      {buffer rest : List ℕ} {packets packets' : List Packet}
      {r : Result PacketError (List Packet) × List ℕ}
      → drain_round (take_packet buffer) buffer packets ≡ continued rest packets'
      → Ends rest packets' r
      → Ends buffer packets r

module _ (f : ℕ) (buffer : List ℕ) (acc : List Packet) where
  drain-last :
      {result : Result PacketError (List Packet)} {rest : List ℕ}
      → drain_round (take_packet buffer) buffer acc ≡ ended result rest
      → drain (suc f) buffer acc ≡ ended result rest
  unfolding drain
  drain-last t = rw (drain, t) refl

  drain-next :
      {rest : List ℕ} {acc' : List Packet}
      → drain_round (take_packet buffer) buffer acc ≡ continued rest acc'
      → drain (suc f) buffer acc ≡ drain f rest acc'
  unfolding drain
  drain-next t = rw (drain, t) refl

-- The loop without a bound on its rounds comes to this, and the rounds are enough for it.
abbrev pub EndsWithin : ℕ → List ℕ → List Packet → Type 0
EndsWithin fuel buffer acc =
    (result : Result PacketError (List Packet)) × (rest : List ℕ) × (drain fuel buffer acc
      ≡ ended result rest)
    × Ends buffer acc (result, rest)

drain-EndsWithin :
    (f : ℕ) (buffer : List ℕ) (acc : List Packet) → length buffer < f → EndsWithin f buffer acc
drain-EndsWithin zero buffer acc h = absurd (omega arith)
drain-EndsWithin (suc f) buffer acc h = elim (take_cases buffer) [
  | inl (e, t) ↦
      let round : drain_round (take_packet buffer) buffer acc ≡ ended (err e) buffer = rw t refl in
      (err e, buffer, drain-last f buffer acc round, last_round round)
  | inr (inl t) ↦
      let round : drain_round (take_packet buffer) buffer acc ≡ ended (ok acc) buffer = rw t refl in
      (ok acc, buffer, drain-last f buffer acc round, last_round round)
  | inr (inr (p, left, t)) ↦
      let shorter = take_packet-shorter buffer t in
      let round : drain_round (take_packet buffer) buffer acc ≡ continued left (acc ++ p ∷ []) =
        rw t refl in
      let (result, rest, ran, ends) = drain-EndsWithin f left (acc ++ p ∷ []) (omega arith) in
      (result, rest, drain-next f buffer acc round ∙ ran, next_round round ends)
]

-- The loop of `push` ends: among its rounds over the buffer with the bytes behind it there is one that ends it,
-- by the `break` or by an error. What the loop comes to, without a bound on its rounds, is what `push`
-- answers and leaves in the buffer.
pub push-Ends :
    (d : PacketDecoder) (bytes : List ℕ)
    → (result : Result PacketError (List Packet)) × (rest : List ℕ) × (drain
          (suc (length (d.buffer ++ bytes)))
          (d.buffer ++ bytes)
          []
        ≡ ended result rest)
      × Ends (d.buffer ++ bytes) [] (result, rest)
      × (push d bytes ≡ (result, record { buffer = rest }))
unfolding push drain-EndsWithin
push-Ends d bytes =
    let buffer = d.buffer ++ bytes in
    let (result, rest, ran, ends) =
      drain-EndsWithin (suc (length buffer)) buffer [] (omega arith) in
    (result, rest, ran, ends, rw (push, drained, ran) refl)
