-- ===== src/Link/Spin.antt =====
-- crates/reink-d4/src/link.rs: the loop of `transaction` on a packet that it has queued itself.
use reink_rust.Base.{
  ==_iff, ◌==◌, arith, lt→ltb, subst, sym, zero, ◌+◌, refl, [], false, leb, some, suc, true, ℕ, ◌<◌,
  ◌∷◌, ◌≡◌,
}
use reink_rust.Link.State.{
  stop, ◌>>=◌, gets, known, guard, modify, pure, expect_channel, ChannelId, same_channel,
  ChannelState, set_channel, D4Link, out_of_fuel,
}
use reink_rust.Packet.{Packet}
use reink_rust.Link.Io.{packet_channel, add_u16, adds_u16, next_packet, apply_credit}
use reink_rust.Link.Session.{on_transaction_channel, is_terminated, queue_packet, transaction_loop}
use reink_rust.Platform.Transport.{ByteTransport}

-- The one packet received is for an open service channel, fits it, and grants no credit.
pub record IsQueued {T : ByteTransport} (p : Packet) (state : ChannelState) (s : D4Link T)
    : Type 0 where
  pub received : s.received ≡ p ∷ []
  pub service : on_transaction_channel p ≡ false
  pub running : is_terminated s.conversation ≡ false
  pub entry : s.channels (packet_channel p) ≡ some state
  pub fits : leb p.header.length state.max_service_size ≡ true
  pub no_credit : p.header.credit ≡ 0
  pub bounded : state.credit < 65536

==_refl : (a : ℕ) → (a == a) ≡ true
==_refl a = (==_iff a a).1 refl

pub same_channel_refl : (c : ChannelId) → same_channel c c ≡ true
same_channel_refl c = rw (==_refl c.peer_socket, ==_refl c.source_socket) refl

module _ {T : ByteTransport} where
  -- The link after one round.
  abbrev after_round : Packet → ChannelState → D4Link T → D4Link T
  after_round p state s = record s {
    channels =
        set_channel s.channels (packet_channel p)
          (some (record state { credit = add_u16 state.credit p.header.credit }));
    received = p ∷ [];
  }

  adds :
      (p : Packet) (state : ChannelState) (s : D4Link T)
      → IsQueued p state s
      → adds_u16 state.credit p.header.credit ≡ true
  adds p state s q =
      let none_added = q.no_credit in
      let below = q.bounded in lt→ltb (state.credit + p.header.credit) 65536 (omega arith)

  round :
      (fuel expected : ℕ) (p : Packet) (state : ChannelState) (s : D4Link T)
      → IsQueued p state s
      → transaction_loop (suc fuel) expected s
        ≡ transaction_loop fuel expected (after_round p state s)
  unfolding transaction_loop next_packet queue_packet apply_credit ◌>>=◌ gets known guard modify
      pure expect_channel
  round fuel expected p state s q =
      rw (q.received, q.service, q.running, q.entry, q.fits, adds p state s q, q.entry) refl

  after_round-IsQueued :
      (p : Packet) (state : ChannelState) (s : D4Link T)
      → IsQueued p state s
      → IsQueued p
          (record state { credit = add_u16 state.credit p.header.credit })
          (after_round p state s)
  after_round-IsQueued p state s q = record {
    received = refl;
    service = q.service;
    running = q.running;
    entry = rw (same_channel_refl (packet_channel p)) refl;
    fits = q.fits;
    no_credit = q.no_credit;
    bounded = omega arith;
  }

  -- While the only packet received is one of an open service channel that fits it and grants no
  -- credit, and the conversation is not terminated, the loop of `transaction` takes that packet out,
  -- puts it back, and never uses the transport: whatever the fuel, it runs out.
  pub transaction_loop-spins :
      (fuel expected : ℕ) (p : Packet) (state : ChannelState) (s : D4Link T)
      → IsQueued p state s
      → ((transaction_loop fuel expected s).0 ≡ out_of_fuel)
        × ((transaction_loop fuel expected s).1.target ≡ s.target)
  unfolding transaction_loop stop
  transaction_loop-spins zero expected p state s q = (refl, refl)
  transaction_loop-spins (suc fuel) expected p state s q =
      subst (λ r. (r.0 ≡ out_of_fuel) × (r.1.target ≡ s.target))
        (sym (round fuel expected p state s q))
        (transaction_loop-spins fuel expected p _ _ (after_round-IsQueued p state s q))
