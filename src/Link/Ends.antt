-- ===== src/Link/Ends.antt =====
-- crates/reink-d4/src/link.rs: what the end of a conversation leaves of a link.
use reink_rust.Base.{Option-cases, ap, false, inl, inr, none, refl, some, sym, true, ◌≡◌}
use reink_rust.Platform.Transport.{ByteTransport}
use reink_rust.Link.State.{
  ChannelId, same_channel, transaction_id, ChannelState, terminated, Channels, set_channel, D4Link,
  ok, ◌>>=◌, modify, expect_channel,
}
use reink_rust.Link.Keeps.{some_eq}
use reink_rust.Link.Peer.{is_some, retain_transaction, terminate_conversation}

-- A link whose conversation has ended: the transaction channel alone is left, without credit.
pub record IsEnded {T : ByteTransport} (s : D4Link T) : Type 0 where
  pub conversation : s.conversation ≡ terminated
  pub alone : (c : ChannelId) → same_channel c transaction_id ≡ false → s.channels c ≡ none
  pub no_credit : (state : ChannelState) → s.channels transaction_id ≡ some state → state.credit ≡ 0

ended-alone :
    (channels : Channels) (state : ChannelState) (c : ChannelId)
    → same_channel c transaction_id ≡ false
    → set_channel (retain_transaction channels) transaction_id (some state) c ≡ none
ended-alone channels state c h = rw h refl

module _ {T : ByteTransport} where
  retained :
      (s : D4Link T) (state : ChannelState)
      → s.channels transaction_id ≡ some state
      → terminate_conversation s ≡ (
        ok tt,
        record s {
          channels =
              set_channel
                (retain_transaction s.channels)
                transaction_id
                (some (record state { credit = 0 }));
          conversation = terminated;
        },
      )
  unfolding terminate_conversation ◌>>=◌ modify expect_channel
  retained s state h = rw h refl

  -- Ending the conversation of a link that has its transaction channel does not panic, and leaves
  -- that channel alone, without credit, and the conversation terminated.
  pub terminate_conversation-IsEnded :
      (s : D4Link T)
      → is_some (s.channels transaction_id) ≡ true
      → ((terminate_conversation s).0 ≡ ok tt) × IsEnded (terminate_conversation s).1
  terminate_conversation-IsEnded s present = elim (Option-cases (s.channels transaction_id)) [
    | inl h ↦ cc
    | inr (state, h) ↦ rw (retained s state h) (
      refl,
      record {
        conversation = refl;
        alone = λ c e. ended-alone s.channels _ c e;
        no_credit = λ state' e. sym (ap (λ x. x.credit) (some_eq e));
      },
    )
  ]
