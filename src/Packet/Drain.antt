-- ===== src/Packet/Drain.antt =====
-- crates/reink-d4/src/packet.rs: the loop of `PacketDecoder::push`, its fuel, and later bytes.
use reink_rust.Base.Text.{same}
use reink_rust.Base.{
  length-append, List, Result, [], ap, append-nil, append_assoc, arith, err, inl, inr, length, none,
  ok, refl, some, suc, sym, zero, ◌++◌, ◌∙◌, ◌∷◌, ◌≡◌, ◌≤◌, ℕ,
}
use reink_rust.Packet.{drain, Packet, PacketError, take_packet, drained}
use reink_rust.Packet.Round.{
  take_cases, take_packet-shorter, take_packet-append, take_packet-append_err,
}

module _ (f : ℕ) (buffer : List ℕ) (acc : List Packet) where
  pub drain_err :
      {e : PacketError} → take_packet buffer ≡ err e → drained (suc f) buffer acc ≡ (err e, buffer)
  unfolding drained
  drain_err t = rw (drained, drain, t) refl

  pub drain_break : take_packet buffer ≡ ok none → drained (suc f) buffer acc ≡ (ok acc, buffer)
  unfolding drained
  drain_break t = rw (drained, drain, t) refl

  pub drain_packet :
      {p : Packet} {rest : List ℕ}
      → take_packet buffer ≡ ok (some (p, rest))
      → drained (suc f) buffer acc ≡ drained f rest (acc ++ p ∷ [])
  unfolding drained
  drain_packet t = rw (drained, drain, t) refl

pub drain_zero : (buffer : List ℕ) (acc : List Packet) → drained 0 buffer acc ≡ (ok acc, buffer)
unfolding drained
drain_zero buffer acc = refl

pub drain_nil : (f : ℕ) (acc : List Packet) → drained f [] acc ≡ (ok acc, [])
unfolding drained take_packet
drain_nil zero acc = refl
drain_nil (suc f) acc = refl

-- Fuel beyond the length of the buffer changes nothing.
pub drain_fuel :
    (f g : ℕ) (buffer : List ℕ) (acc : List Packet)
    → length buffer ≤ f
    → length buffer ≤ g
    → drained f buffer acc ≡ drained g buffer acc
drain_fuel f g [] acc h k = drain_nil f acc ∙ sym (drain_nil g acc)
drain_fuel zero g (b ∷ bs) acc h k = absurd (omega arith)
drain_fuel (suc f) zero (b ∷ bs) acc h k = absurd (omega arith)
drain_fuel (suc f) (suc g) (b ∷ bs) acc h k = elim (take_cases (b ∷ bs)) [
  | inl (e, t) ↦ drain_err f (b ∷ bs) acc t ∙ sym (drain_err g (b ∷ bs) acc t)
  | inr (inl t) ↦ drain_break f (b ∷ bs) acc t ∙ sym (drain_break g (b ∷ bs) acc t)
  | inr (inr (p, rest, t)) ↦
      let shorter = take_packet-shorter (b ∷ bs) t in
      drain_packet f (b ∷ bs) acc t
      ∙ drain_fuel f g rest (acc ++ p ∷ []) (omega arith) (omega arith)
      ∙ sym (drain_packet g (b ∷ bs) acc t)
]

-- `prepend acc r`: the packets of `r` behind those of `acc`.
abbrev pub prepend :
    List Packet
    → Result PacketError (List Packet) × List ℕ
    → Result PacketError (List Packet) × List ℕ
prepend acc (ok ps, rest) = (ok (acc ++ ps), rest)
prepend acc (err e, rest) = (err e, rest)

prepend-prepend :
    (a b : List Packet) (r : Result PacketError (List Packet) × List ℕ)
    → prepend a (prepend b r) ≡ prepend (a ++ b) r
prepend-prepend a b (ok ps, rest) = rw (append_assoc a b ps)
prepend-prepend a b (err e, rest) = refl

pub drain_acc :
    (f : ℕ) (buffer : List ℕ) (acc : List Packet)
    → drained f buffer acc ≡ prepend acc (drained f buffer [])
drain_acc zero buffer acc = unfold drained in rw (append-nil acc)
drain_acc (suc f) buffer acc = elim (take_cases buffer) [
  | inl (e, t) ↦ rw (drain_err f buffer acc t, drain_err f buffer [] t)
  | inr (inl t) ↦ rw (drain_break f buffer acc t, drain_break f buffer [] t, append-nil acc)
  | inr (inr (p, rest, t)) ↦
      drain_packet f buffer acc t
      ∙ drain_acc f rest (acc ++ p ∷ [])
      ∙ sym (prepend-prepend acc (p ∷ []) (drained f rest []))
      ∙ ap (prepend acc) (sym (drain_acc f rest (p ∷ [])) ∙ sym (drain_packet f buffer [] t))
]

-- The contents of a loop's result are the parts of the result.
pub ok_parts :
    {out out' : List Packet} {rest rest' : List ℕ}
    → ◌≡◌ {A = Result PacketError (List Packet) × List ℕ} (ok out, rest) (ok out', rest')
    → (out ≡ out') × (rest ≡ rest')
ok_parts e = (cc, cc)

-- A loop that ended well with `rest` left goes on from there when `more` arrives.
pub drain-append :
    (f g k : ℕ) (buffer more : List ℕ) (acc out : List Packet) (rest : List ℕ)
    → length buffer ≤ f
    → length (buffer ++ more) ≤ g
    → length (rest ++ more) ≤ k
    → drained f buffer acc ≡ (ok out, rest)
    → drained g (buffer ++ more) acc ≡ drained k (rest ++ more) out
drain-append f g k [] more acc out rest hf hg hk e =
    let (same, left) = ok_parts (sym (drain_nil f acc) ∙ e) in
    let left' : length (rest ++ more) ≡ length more = ap (λ r. length (r ++ more)) (sym left) in
    rw (← same, ← left) (drain_fuel g k more acc hg (omega arith))
drain-append zero g k (b ∷ bs) more acc out rest hf hg hk e = absurd (omega arith)
drain-append (suc f) zero k (b ∷ bs) more acc out rest hf hg hk e = absurd (omega arith)
drain-append (suc f) (suc g) k (b ∷ bs) more acc out rest hf hg hk e = elim (take_cases (b ∷ bs)) [
  | inl (x, t) ↦ cc (drain_err f (b ∷ bs) acc t)
  | inr (inl t) ↦
      let (same, left) = ok_parts (sym (drain_break f (b ∷ bs) acc t) ∙ e) in
      let left' : length (rest ++ more) ≡ length (b ∷ bs ++ more) =
        ap (λ r. length (r ++ more)) (sym left) in
      rw (← same, ← left) (drain_fuel (suc g) k (b ∷ bs ++ more) acc hg (omega arith))
  | inr (inr (p, r, t)) ↦
      let shorter = take_packet-shorter (b ∷ bs) t in
      drain_packet g (b ∷ bs ++ more) acc (take_packet-append (b ∷ bs) more t)
      ∙ drain-append f g k r more (acc ++ p ∷ []) out rest (omega arith)
          (omega (arith, length-append r more, length-append bs more)) hk
          (sym (drain_packet f (b ∷ bs) acc t) ∙ e)
]

-- An error stays the first error, whatever arrives behind it.
pub drain-append_err :
    (f g : ℕ) (buffer more : List ℕ) (acc : List Packet) (x : PacketError) (rest : List ℕ)
    → length buffer ≤ f
    → length (buffer ++ more) ≤ g
    → drained f buffer acc ≡ (err x, rest)
    → (drained g (buffer ++ more) acc).0 ≡ err x
drain-append_err f g [] more acc x rest hf hg e = cc (drain_nil f acc)
drain-append_err zero g (b ∷ bs) more acc x rest hf hg e = absurd (omega arith)
drain-append_err (suc f) zero (b ∷ bs) more acc x rest hf hg e = absurd (omega arith)
drain-append_err (suc f) (suc g) (b ∷ bs) more acc x rest hf hg e = elim (take_cases (b ∷ bs)) [
  | inl (y, t) ↦ cc (
    drain_err f (b ∷ bs) acc t,
    drain_err g (b ∷ bs ++ more) acc (take_packet-append_err (b ∷ bs) more t),
  )
  | inr (inl t) ↦ cc (drain_break f (b ∷ bs) acc t)
  | inr (inr (p, r, t)) ↦
      let shorter = take_packet-shorter (b ∷ bs) t in
      rw (drain_packet g (b ∷ bs ++ more) acc (take_packet-append (b ∷ bs) more t)) (
        drain-append_err f g r more (acc ++ p ∷ []) x rest (omega arith)
          (omega (arith, length-append r more, length-append bs more))
          (sym (drain_packet f (b ∷ bs) acc t) ∙ e))
]

-- What a loop that ended well leaves in the buffer is no whole packet.
pub drain-idle :
    (f : ℕ) (buffer : List ℕ) (acc out : List Packet) (rest : List ℕ)
    → length buffer ≤ f
    → drained f buffer acc ≡ (ok out, rest)
    → take_packet rest ≡ ok none
drain-idle f [] acc out rest h e =
    let (same, left) = ok_parts (sym (drain_nil f acc) ∙ e) in
    rw (← left) (unfold take_packet in refl)
drain-idle zero (b ∷ bs) acc out rest h e = absurd (omega arith)
drain-idle (suc f) (b ∷ bs) acc out rest h e = elim (take_cases (b ∷ bs)) [
  | inl (x, t) ↦ cc (drain_err f (b ∷ bs) acc t)
  | inr (inl t) ↦
      let (same, left) = ok_parts (sym (drain_break f (b ∷ bs) acc t) ∙ e) in rw (← left) t
  | inr (inr (p, r, t)) ↦
      let shorter = take_packet-shorter (b ∷ bs) t in
      drain-idle f r (acc ++ p ∷ []) out rest (omega arith)
        (sym (drain_packet f (b ∷ bs) acc t) ∙ e)
]

-- A buffer that holds no whole packet is left as it is.
pub drain_idle_buffer :
    (f : ℕ) (buffer : List ℕ) (acc : List Packet)
    → take_packet buffer ≡ ok none
    → drained f buffer acc ≡ (ok acc, buffer)
drain_idle_buffer zero buffer acc t = unfold drained in refl
drain_idle_buffer (suc f) buffer acc t = drain_break f buffer acc t
