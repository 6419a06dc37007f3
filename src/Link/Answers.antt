-- ===== src/Link/Answers.antt =====
-- crates/reink-d4/src/link.rs: the invariant of a link under answers to the peer.
use reink_rust.Base.{
  Bool, Option-cases, arith, false, inl, inr, ltb, ltb→lt, refl, some, true, ◌+◌, ◌<◌, ◌==◌, ◌≡◌, ℕ,
}
use reink_rust.Transaction.{
  ProtocolRevision, TransactionMessage, init, open_channel, close_channel, credit, credit_request,
  exit, get_socket_id, get_service_name, error,
}
use reink_rust.Platform.Transport.{ByteTransport}
use reink_rust.Link.State.{
  ChannelId, same_channel, transaction_id, ChannelState, ConversationState, inactive, active,
  exiting, terminated, D4Link, modify,
}
use reink_rust.Link.Peer.{
  retain_transaction, close_result, terminate_conversation, handle_peer_open, handle_peer_init,
  handle_peer_close, handle_peer_credit, handle_peer_exit, handle_peer_transaction,
}
use reink_rust.Link.Keeps.{
  IsChannel, IsLink, Keeps, Keeps-pure, Keeps-fail, Keeps-if, Keeps-bind, Keeps-guard, Keeps-gets,
  Keeps-known, Keeps-modify, Keeps-expect,
}
use reink_rust.Link.Invariant.{Any, send_transaction-Keeps}

pub with_credit-IsChannel :
    (amount : ℕ)
    → amount < 65536
    → (c : ChannelState) → IsChannel c
    → IsChannel (record c { credit = amount })
with_credit-IsChannel amount h c v = record {
  credit = h;
  max_packet_size = v.max_packet_size;
  max_service_size = v.max_service_size;
  max_credit = v.max_credit;
}

opened-IsChannel :
    (is_open : Bool) (c : ChannelState) → IsChannel c → IsChannel (record c { is_open = is_open })
opened-IsChannel is_open c v = record {
  credit = v.credit;
  max_packet_size = v.max_packet_size;
  max_service_size = v.max_service_size;
  max_credit = v.max_credit;
}

module _ {T : ByteTransport} where
  -- A change of the fields that the invariant does not read.
  pub Keeps-modify_rest :
      (f : D4Link T → D4Link T)
      → ((s : D4Link T) → (f s).channels ≡ s.channels)
      → ((s : D4Link T) → (f s).received ≡ s.received)
      → ((s : D4Link T) → (f s).decoder ≡ s.decoder)
      → Keeps Any (modify f)
  Keeps-modify_rest f channels received decoder = Keeps-modify f (λ s v. record {
    present = rw (channels s) v.present;
    channels = rw (channels s) v.channels;
    received = rw (received s) v.received;
    buffered = rw (decoder s) v.buffered;
  })

  retain_transaction-IsLink :
      (s : D4Link T) → IsLink s → IsLink (record s { channels = retain_transaction s.channels })
  retain_transaction-IsLink s v = record {
    present = v.present;
    channels =
        λ c state h. v.channels c state (stays c state (same_channel c transaction_id) refl h);
    received = v.received;
    buffered = v.buffered;
  }
    where
      stays :
          (c : ChannelId) (state : ChannelState) (b : Bool)
          → same_channel c transaction_id ≡ b
          → retain_transaction s.channels c ≡ some state
          → s.channels c ≡ some state
      stays c state true e h = rw e at h
      stays c state false e h = cc (rw e at h)

  pub terminate_conversation-Keeps : Keeps {T = T} Any terminate_conversation
  unfolding terminate_conversation
  terminate_conversation-Keeps =
      Keeps-bind _ _
        (Keeps-modify (λ s. record s { channels = retain_transaction s.channels })
          retain_transaction-IsLink)
        (λ _ _.
          Keeps-bind _ _
            (Keeps-expect transaction_id (λ c. record c { credit = 0 })
              (with_credit-IsChannel 0 (omega arith)))
            (λ _ _.
              Keeps-modify_rest (λ s. record s { conversation = terminated }) (λ s. refl)
                (λ s. refl) (λ s. refl)))

  handle_peer_open-Keeps :
      (channel : ChannelId) (packet_size service_size : ℕ)
      → Keeps {T = T} Any (handle_peer_open channel packet_size service_size)
  unfolding handle_peer_open
  handle_peer_open-Keeps channel packet_size service_size = record {
    at = λ s v. elim (Option-cases (s.channels channel)) [
      | inl h ↦ rw (h, handle_peer_open) ((send_transaction-Keeps _ true).at s v)
      | inr (state, h) ↦ rw (h, handle_peer_open) ((send_transaction-Keeps _ true).at s v)
    ];
  }

  handle_peer_init-Keeps :
      (revision : ProtocolRevision) (conversation : ConversationState)
      → Keeps {T = T} Any (handle_peer_init revision conversation)
  unfolding handle_peer_init
  handle_peer_init-Keeps revision inactive =
      Keeps-bind _ _
        (Keeps-modify_rest (λ s. record s { revision = revision }) (λ s. refl) (λ s. refl)
          (λ s. refl))
        (λ _ _.
          Keeps-bind _ _
            (Keeps-expect transaction_id (λ c. record c { credit = 1 })
              (with_credit-IsChannel 1 (omega arith)))
            (λ _ _.
              Keeps-bind _ _
                (Keeps-modify_rest (λ s. record s { conversation = active }) (λ s. refl) (λ s. refl)
                  (λ s. refl))
                (λ _ _. send_transaction-Keeps _ _)))
  handle_peer_init-Keeps revision _ =
      Keeps-bind _ _ (Keeps-gets _) (λ own _. send_transaction-Keeps _ _)

  handle_peer_close-Keeps : (channel : ChannelId) → Keeps {T = T} Any (handle_peer_close channel)
  unfolding handle_peer_close
  handle_peer_close-Keeps channel = Keeps-bind _ _ (Keeps-gets _) (λ state _.
      Keeps-bind _ _ (send_transaction-Keeps _ _) (λ _ _.
        Keeps-if (close_result channel state == 0) _ _
          (λ _. Keeps-expect channel (λ c. record c { is_open = false }) (opened-IsChannel false))
          (λ _. Keeps-pure tt tt)))

  handle_peer_credit-Keeps :
      (channel : ChannelId) (added : ℕ) → Keeps {T = T} Any (handle_peer_credit channel added)
  unfolding handle_peer_credit
  handle_peer_credit-Keeps channel added = Keeps-bind _ _ (Keeps-known channel) (λ state w.
      Keeps-bind _ _ (Keeps-guard (ltb (state.credit + added) 65536) _) (λ _ small.
        Keeps-bind _ _
          (Keeps-expect channel (λ c. record c { credit = state.credit + added })
            (with_credit-IsChannel (state.credit + added) (ltb→lt _ _ small)))
          (λ _ _. send_transaction-Keeps _ _)))

  handle_peer_exit-Keeps : Keeps {T = T} Any handle_peer_exit
  unfolding handle_peer_exit
  handle_peer_exit-Keeps = Keeps-bind _ _ (send_transaction-Keeps _ _) (λ _ _.
      Keeps-bind _ _ (Keeps-gets (λ s. s.exit_requested)) (λ requested _.
        Keeps-if requested _ _
          (λ _.
            Keeps-modify_rest (λ s. record s { conversation = exiting }) (λ s. refl) (λ s. refl)
              (λ s. refl))
          (λ _. terminate_conversation-Keeps)))

  -- Answering any message of the peer keeps the invariant, whether the answer can be sent or not.
  pub handle_peer_transaction-Keeps :
      (message : TransactionMessage) → Keeps {T = T} Any (handle_peer_transaction message)
  unfolding handle_peer_transaction
  handle_peer_transaction-Keeps (init revision) =
      Keeps-bind _ _ (Keeps-gets _) (λ conversation _. handle_peer_init-Keeps revision conversation)
  handle_peer_transaction-Keeps (open_channel peer source packet_size service_size _ _) =
      handle_peer_open-Keeps _ _ _
  handle_peer_transaction-Keeps (close_channel peer source) = handle_peer_close-Keeps _
  handle_peer_transaction-Keeps (credit peer source added) = handle_peer_credit-Keeps _ _
  handle_peer_transaction-Keeps (credit_request peer source _) = send_transaction-Keeps _ _
  handle_peer_transaction-Keeps exit = handle_peer_exit-Keeps
  handle_peer_transaction-Keeps (get_socket_id name) = send_transaction-Keeps _ _
  handle_peer_transaction-Keeps (get_service_name socket) = send_transaction-Keeps _ _
  handle_peer_transaction-Keeps (error _ _ _) = Keeps-pure tt tt
  handle_peer_transaction-Keeps _ = Keeps-fail _
