-- ===== src/Link/Leaves.antt =====
-- crates/reink-d4/src/link.rs: what the methods that open a service and that exit leave of a link when they
-- return.
use reink_rust.Link.Opens.{entered-IsLink, socket_of-Keeps}
use reink_rust.Link.Answers.{Keeps-modify_rest}
use reink_rust.Link.Methods.{transact-Keeps}
use reink_rust.Base.{
  Option-cases, ap, subst, sym, ◌∙◌, List, inl, inr, none, some, true, ◌≡◌, ℕ, refl, arith,
}
use reink_rust.Platform.Transport.{ByteTransport}
use reink_rust.Transaction.{open_channel_reply, TransactionMessage}
use reink_rust.Link.State.{
  pure, set_channel, D4Error, expect_channel, fail, ChannelState, continue, same_channel, ChannelId,
  D4Link, M, Outcome, ok, err, panicked, out_of_fuel, ◌>>=◌,
}
use reink_rust.Link.Session.{is_open_channel}
use reink_rust.Link.Services.{open_service, exit_conversation, finish_open}
use reink_rust.Link.Peer.{terminate_conversation}
use reink_rust.Link.Ends.{IsEnded, terminate_conversation-IsEnded}
use reink_rust.Link.Keeps.{Keeps-modify, Keeps-guard, Keeps, IsLink}
use reink_rust.Link.Invariant.{require_active_conversation-Keeps}
use reink_rust.Link.Reads.{ReadsBytes}

same_channel_self : (c : ChannelId) → same_channel c c ≡ true
same_channel_self c = ground arith

named_by : {a b : ChannelId} → ◌≡◌ {A = Outcome ChannelId} (ok a) (ok b) → a ≡ b
named_by h = cc h

module _ {T : ByteTransport} where
  -- A method that returns a value, on a well-formed link, leaves a link of which this holds.
  pub record Leaves {A : Type 0} (P : A → D4Link T → Type 0) (m : M T A) : Type 0 where
    pub at : (s : D4Link T) → IsLink s → (a : A) → (m s).0 ≡ ok a → P a (m s).1

  continue-Leaves :
      {A B : Type 0} {P : B → D4Link T → Type 0} (o : Outcome A) (f : A → M T B) (s : D4Link T)
      → IsLink s
      → ((a : A) → Leaves P (f a))
      → (b : B) → (continue o f s).0 ≡ ok b
      → P b (continue o f s).1
  continue-Leaves (ok a) f s v l b eq = (l a).at s v b eq
  continue-Leaves (err e) f s v l b eq = absurd (cc eq)
  continue-Leaves panicked f s v l b eq = absurd (cc eq)
  continue-Leaves out_of_fuel f s v l b eq = absurd (cc eq)

  Leaves-bind :
      {A B : Type 0} {P : B → D4Link T → Type 0} (Q : A → Type 0) (m : M T A) (f : A → M T B)
      → Keeps {T = T} Q m
      → ((a : A) → Leaves P (f a))
      → Leaves P (m >>= f)
  unfolding ◌>>=◌
  Leaves-bind Q m f k l = record {
    at = λ s v b eq. continue-Leaves (m s).0 f (m s).1 (k.at s v).0 l b eq;
  }

  Leaves-fail : {A : Type 0} {P : A → D4Link T → Type 0} (e : D4Error) → Leaves P (fail e)
  unfolding fail
  Leaves-fail e = record { at = λ s v a eq. absurd (cc eq) }

  -- The channel that a method names is open.
  abbrev pub Opens : ChannelId → D4Link T → Type 0
  Opens c s = is_open_channel (s.channels c) ≡ true

  abbrev with_state : ChannelId → ChannelState → D4Link T → D4Link T
  with_state channel state s = record s { channels = set_channel s.channels channel (some state) }

  with_state-Opens :
      (channel : ChannelId) (state : ChannelState) (s : D4Link T)
      → state.is_open ≡ true
      → Opens channel (with_state channel state s)
  with_state-Opens channel state s h = rw (same_channel_self channel) h

  -- A grant of an opening on a link that has the channel, and on one that has not.
  module _ (channel : ChannelId) (f : ChannelState → ChannelState) where
    abbrev grant_opening : M T ChannelId
    grant_opening = expect_channel channel f >>= λ _. pure channel

    grant_opening-present :
        (s : D4Link T) (state : ChannelState)
        → s.channels channel ≡ some state
        → grant_opening s ≡ (ok channel, with_state channel (f state) s)
    unfolding ◌>>=◌ expect_channel pure
    grant_opening-present s state h = rw (expect_channel, h) refl

    grant_opening-absent :
        (s : D4Link T) → s.channels channel ≡ none → (grant_opening s).0 ≡ panicked
    unfolding ◌>>=◌ expect_channel pure
    grant_opening-absent s h = rw (expect_channel, h) refl

    grant_opening-Leaves :
        ((state : ChannelState) → (f state).is_open ≡ true) → Leaves Opens grant_opening
    grant_opening-Leaves opens = record {
      at = λ s v c eq. elim (Option-cases (s.channels channel)) [
        | inl h ↦ absurd (cc (sym (grant_opening-absent s h) ∙ eq))
        | inr (state, h) ↦
            let ran = grant_opening-present s state h in
            let named : channel ≡ c = named_by (sym (ap (λ r. r.0) ran) ∙ eq) in
            subst (λ r. Opens c r.1) (sym ran)
              (subst (λ d. Opens d (with_state channel (f state) s)) named
                (with_state-Opens channel (f state) s (opens state)))
      ];
    }

  finish_open-Leaves :
      (channel : ChannelId) (reply : TransactionMessage) → Leaves Opens (finish_open channel reply)
  unfolding finish_open
  finish_open-Leaves channel
        (open_channel_reply result peer source packet_size service_size max granted) =
      Leaves-bind _ _ _ (Keeps-guard _ _) (λ _. grant_opening-Leaves channel _ (λ state. refl))
  finish_open-Leaves channel _ = Leaves-fail _

  terminate_conversation-Leaves : Leaves (λ _ s. IsEnded s) (terminate_conversation {T = T})
  terminate_conversation-Leaves = record {
    at = λ s v u eq. (terminate_conversation-IsEnded s v.present).1;
  }

  module _ (b : ReadsBytes T) where
    pub open_service-Leaves : (fuel : ℕ) (name : List ℕ) → Leaves Opens (open_service fuel name)
    unfolding open_service
    open_service-Leaves fuel name = Leaves-bind _ _ _ (transact-Keeps b fuel _ _) (λ reply.
        Leaves-bind _ _ _ (socket_of-Keeps name reply) (λ channel.
          Leaves-bind _ _ _ (Keeps-modify _ (entered-IsLink channel name)) (λ _.
            Leaves-bind _ _ _ (transact-Keeps b fuel _ _)
              (λ reply'. finish_open-Leaves channel reply'))))

    pub exit_conversation-Leaves : (fuel : ℕ) → Leaves (λ _ s. IsEnded s) (exit_conversation fuel)
    unfolding exit_conversation
    exit_conversation-Leaves fuel = Leaves-bind _ _ _ require_active_conversation-Keeps (λ _.
        Leaves-bind _ _ _
          (Keeps-modify_rest (λ s. record s { exit_requested = true }) (λ s. refl) (λ s. refl)
            (λ s. refl))
          (λ _.
            Leaves-bind _ _ _ (transact-Keeps b fuel _ _)
              (λ reply. Leaves-bind _ _ _ (Keeps-guard _ _) (λ _. terminate_conversation-Leaves))))
