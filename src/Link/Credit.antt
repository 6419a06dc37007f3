-- ===== src/Link/Credit.antt =====
-- crates/reink-d4/src/link.rs: what `send` does to the credit of its channel.
use reink_rust.Base.{
  leb, not, ◌&&◌, ◌==◌, ap, if◌then◌else◌, sym, ◌∙◌, Bool, Result, arith, false, refl, List, length,
  some, true, ◌+◌, ◌-◌, ◌<◌, ◌≡◌, ◌≤◌, ℕ,
}
use reink_rust.Packet.{encode, header_length}
use reink_rust.Platform.Transport.{ByteTransport}
use reink_rust.Link.State.{
  ChannelId, ChannelState, D4Link, D4Error, transport, ok, M, ◌>>=◌, ◌>>◌, pure, fail, gets, guard,
  lift, known, expect_channel, write_all,
}
use reink_rust.Link.Io.{send, pred_u16, require_active_conversation, is_inactive}
use reink_rust.Link.Spin.{same_channel_refl}

-- A transmission that was paid for.
pub record Spent {T : ByteTransport} (channel : ChannelId) (size : ℕ) (state : ChannelState)
    (s' : D4Link T) : Type 0 where
  pub had_credit : 0 < state.credit
  pub fits : header_length + size ≤ state.max_packet_size
  pub credit : s'.channels channel ≡ some (record state { credit = state.credit - 1 })

credit_left : (n : ℕ) → not (true && n == 0) ≡ true → 0 < n
credit_left n h = ground arith

leb→le : (a b : ℕ) → leb a b ≡ true → a ≤ b
leb→le a b h = ground arith

-- What a step that was passed tells, and what is left to run.
module _ {T : ByteTransport} {A : Type 0} (s : D4Link T) (v : A) where
  guard-ok :
      (b : Bool) (e : D4Error) (k : M T A)
      → ((guard b e >> k) s).0 ≡ ok v
      → (b ≡ true) × ((guard b e >> k) s ≡ k s)
  unfolding ◌>>=◌ guard pure fail
  guard-ok true e k h = (refl, refl)
  guard-ok false e k h = cc

  require-ok :
      (k : M T A)
      → ((require_active_conversation >> k) s).0 ≡ ok v
      → (require_active_conversation >> k) s ≡ k s
  unfolding ◌>>=◌ require_active_conversation
  require-ok k h = ground arith

  lift-ok :
      {E B : Type 0} (f : E → D4Error) (r : Result E B) (k : B → M T A)
      → ((lift f r >>= k) s).0 ≡ ok v
      → (b : B) × (r ≡ Result.ok b) × ((lift f r >>= k) s ≡ k b s)
  unfolding ◌>>=◌ lift pure fail
  lift-ok f (Result.ok b) k h = (b, refl, refl)
  lift-ok f (Result.err e) k h = cc

  known-some :
      (channel : ChannelId) (state : ChannelState) (k : ChannelState → M T A)
      → s.channels channel ≡ some state
      → (known channel >>= k) s ≡ k state s
  unfolding ◌>>=◌ known
  known-some channel state k h = rw (h, known) refl

module _ {T : ByteTransport} where
  write_all-ok :
      {A : Type 0} (s : D4Link T) (v : A) (bytes : List ℕ) (k : M T A)
      → ((write_all bytes >> k) s).0 ≡ ok v
      → (write_all bytes >> k) s ≡ k (record s { target = (T.write_all s.target bytes).1 })
  unfolding ◌>>=◌ write_all
  write_all-ok s v bytes k h =
      (lift-ok (record s { target = (T.write_all s.target bytes).1 }) v transport
        (T.write_all s.target bytes).0 (λ u. k) h).2

  start-ok :
      {A : Type 0} (s : D4Link T) (v : A) (c : Bool) (k : M T A)
      → (((if c then pure tt else require_active_conversation) >> k) s).0 ≡ ok v
      → ((if c then pure tt else require_active_conversation) >> k) s ≡ k s
  unfolding ◌>>=◌ pure
  start-ok s v true k h = refl
  start-ok s v false k h = require-ok s v k h

  spent :
      (channel : ChannelId) (state : ChannelState) (s : D4Link T)
      → s.channels channel ≡ some state
      → state.credit < 65536
      → 0 < state.credit
      → (expect_channel channel (λ c. record c { credit = pred_u16 c.credit }) s).1.channels channel
        ≡ some (record state { credit = state.credit - 1 })
  unfolding expect_channel
  spent channel state s h small some_left =
      let one_less : pred_u16 state.credit ≡ state.credit - 1 = omega arith in
      rw (h, expect_channel, same_channel_refl channel)
        (ap (λ n. some (record state { credit = n })) one_less)

  -- On a channel with a 16-bit credit, a transmission that consumes credit and succeeds had credit
  -- and fitted the negotiated packet size, and it leaves the channel with exactly one credit less and
  -- nothing else of it changed.
  pub send-Spent :
      (channel : ChannelId) (payload : List ℕ) (state : ChannelState) (s : D4Link T)
      → s.channels channel ≡ some state
      → state.credit < 65536
      → (send channel payload true s).0 ≡ ok tt
      → Spent channel (length payload) state (send channel payload true s).1
  unfolding send ◌>>=◌ gets
  send-Spent channel payload state s h small sent =
      let e0 =
        start-ok s tt (is_inactive s.conversation) _ sent ∙ known-some s tt channel state _ h in
      let (t1, e1) = guard-ok s tt _ _ _ (sym (ap (λ r. r.0) e0) ∙ sent) in
      let (t2, e2) = guard-ok s tt _ _ _ (sym (ap (λ r. r.0) (e0 ∙ e1)) ∙ sent) in
      let (t3, e3) = guard-ok s tt _ _ _ (sym (ap (λ r. r.0) (e0 ∙ e1 ∙ e2)) ∙ sent) in
      let (p, made, e4) = lift-ok s tt _ _ _ (sym (ap (λ r. r.0) (e0 ∙ e1 ∙ e2 ∙ e3)) ∙ sent) in
      let e5 =
        write_all-ok s tt (encode p) _ (sym (ap (λ r. r.0) (e0 ∙ e1 ∙ e2 ∙ e3 ∙ e4)) ∙ sent) in
      let some_left = credit_left state.credit t2 in
      record {
        had_credit = some_left;
        fits = leb→le _ _ t3;
        credit =
            ap (λ r. r.1.channels channel) (e0 ∙ e1 ∙ e2 ∙ e3 ∙ e4 ∙ e5)
            ∙ spent channel state (record s { target = (T.write_all s.target (encode p)).1 }) h
                small some_left;
      }
