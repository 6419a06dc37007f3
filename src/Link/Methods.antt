-- ===== src/Link/Methods.antt =====
-- crates/reink-d4/src/link.rs: the invariant of a link under `transaction` and `initialize`.
use reink_rust.Base.{
  arith, false, refl, true, All-append, Bool, [], not, suc, zero, ◌++◌, ◌==◌, ◌∷◌, ℕ,
}
use reink_rust.Packet.{Packet, IsPacket}
use reink_rust.Transaction.{
  ProtocolRevision, v10, v20, TransactionMessage, init, init_reply, open_channel,
  open_channel_reply, close_channel, close_channel_reply, credit, credit_reply, credit_request,
  credit_request_reply, exit, exit_reply, get_socket_id, get_socket_id_reply, get_service_name,
  get_service_name_reply, error, code, reply_code, is_command,
}
use reink_rust.Transaction
use reink_rust.Transaction.Bounds.{IsMessage}
use reink_rust.Transaction.Fields.{decode-IsMessage}
use reink_rust.Platform.Transport.{ByteTransport}
use reink_rust.Link.State.{
  transaction_id, ConversationState, active, exiting, D4Link, transaction, lift,
}
use reink_rust.Link.Session.{
  on_transaction_channel, is_terminated, queue_packet, transaction_loop, transact, negotiate,
  initialize_guard, initialize,
}
use reink_rust.Link.Keeps.{
  IsLink, Keeps, Keeps-pure, Keeps-fail, Keeps-stop, Keeps-weaken, Keeps-lift, Keeps-if, Keeps-bind,
  Keeps-guard, Keeps-gets, Keeps-modify, Keeps-expect,
}
use reink_rust.Link.Invariant.{Any, send_transaction-Keeps, apply_credit-Keeps}
use reink_rust.Link.Reads.{ReadsBytes, next_packet-Keeps}
use reink_rust.Link.Answers.{
  with_credit-IsChannel, handle_peer_transaction-Keeps, Keeps-modify_rest,
}

module _ {T : ByteTransport} where
  pub queued-IsLink :
      (p : Packet)
      → IsPacket p
      → (s : D4Link T) → IsLink s
      → IsLink (record s { received = s.received ++ p ∷ [] })
  queued-IsLink p w s v = record {
    present = v.present;
    channels = v.channels;
    received = All-append IsPacket s.received (p ∷ []) v.received (w, tt);
    buffered = v.buffered;
  }

  queue_packet-Keeps : (p : Packet) → IsPacket p → Keeps {T = T} Any (queue_packet p)
  unfolding queue_packet
  queue_packet-Keeps p w =
      Keeps-bind _ _ (apply_credit-Keeps p) (λ _ _. Keeps-modify _ (queued-IsLink p w))

  -- The message of a packet has the field widths of its kind.
  pub received-Keeps :
      (p : Packet) (revision : ProtocolRevision)
      → IsPacket p
      → Keeps {T = T} IsMessage (lift transaction (Transaction.decode p.payload revision))
  received-Keeps p revision w =
      Keeps-weaken _ (Keeps-lift _ _) (λ m e. decode-IsMessage p.payload revision m w.payload e)

  module _ (b : ReadsBytes T) where
    transaction_loop-Keeps :
        (fuel expected : ℕ) → Keeps {T = T} IsMessage (transaction_loop fuel expected)
    unfolding transaction_loop
    transaction_loop-Keeps zero expected = Keeps-stop
    transaction_loop-Keeps (suc fuel) expected = Keeps-bind _ _ (next_packet-Keeps b) (λ p w.
        Keeps-bind _ _ (Keeps-gets (λ s. s.conversation)) (λ conversation _.
          Keeps-if (not (on_transaction_channel p)) _ _
            (λ _.
              Keeps-if (is_terminated conversation) _ _ (λ _. transaction_loop-Keeps fuel expected)
                (λ _.
                  Keeps-bind _ _ (queue_packet-Keeps p w)
                    (λ _ _. transaction_loop-Keeps fuel expected)))
            (λ _. Keeps-bind _ _ (apply_credit-Keeps p) (λ _ _.
              Keeps-bind _ _ (Keeps-gets (λ s. s.revision)) (λ revision _.
                Keeps-bind _ _ (received-Keeps p revision w) (λ m widths.
                  Keeps-if (is_command m) _ _
                    (λ _.
                      Keeps-bind _ _ (handle_peer_transaction-Keeps m)
                        (λ _ _. transaction_loop-Keeps fuel expected))
                    (λ _.
                      Keeps-if (code m == expected) _ _ (λ _. Keeps-pure m widths)
                        (λ _. Keeps-fail _))))))))

    -- A transaction keeps the invariant, and a reply that it returns has the field widths of its kind.
    pub transact-Keeps :
        (fuel : ℕ) (message : TransactionMessage) (consume_credit : Bool)
        → Keeps {T = T} IsMessage (transact fuel message consume_credit)
    unfolding transact
    transact-Keeps fuel message consume_credit =
        Keeps-bind _ _ (send_transaction-Keeps _ _) (λ _ _. transaction_loop-Keeps fuel _)

    negotiate-Keeps :
        (revision : ProtocolRevision) (reply : TransactionMessage)
        → Keeps {T = T} Any (negotiate revision reply)
    unfolding negotiate
    negotiate-Keeps revision (init_reply result negotiated) =
        Keeps-if (result == 0) _ _
          (λ _.
            Keeps-bind _ _
              (Keeps-modify_rest (λ s. record s { revision = negotiated }) (λ s. refl) (λ s. refl)
                (λ s. refl))
              (λ _ _.
                Keeps-bind _ _
                  (Keeps-expect transaction_id (λ c. record c { credit = 1 })
                    (with_credit-IsChannel 1 (omega arith)))
                  (λ _ _.
                    Keeps-bind _ _
                      (Keeps-modify_rest (λ s. record s { conversation = active }) (λ s. refl)
                        (λ s. refl) (λ s. refl))
                      (λ _ _. Keeps-pure true tt))))
          (λ _. Keeps-bind _ _ (Keeps-guard _ _) (λ _ _. Keeps-pure false tt))
    negotiate-Keeps revision _ = Keeps-fail _

    initialize_guard-Keeps :
        (conversation : ConversationState) → Keeps {T = T} Any (initialize_guard conversation)
    unfolding initialize_guard
    initialize_guard-Keeps active = Keeps-fail _
    initialize_guard-Keeps exiting = Keeps-fail _
    initialize_guard-Keeps _ = Keeps-pure tt tt

    pub initialize-Keeps : (fuel : ℕ) → Keeps {T = T} Any (initialize fuel)
    unfolding initialize
    initialize-Keeps fuel = Keeps-bind _ _ (Keeps-gets (λ s. s.conversation)) (λ conversation _.
        Keeps-bind _ _ (initialize_guard-Keeps conversation) (λ _ _.
          Keeps-bind _ _ (transact-Keeps fuel _ _) (λ reply _.
            Keeps-bind _ _ (negotiate-Keeps v20 reply) (λ agreed _.
              Keeps-if agreed _ _ (λ _. Keeps-pure tt tt)
                (λ _. Keeps-bind _ _ (transact-Keeps fuel _ _) (λ reply' _.
                  Keeps-bind _ _ (negotiate-Keeps v10 reply') (λ agreed' _.
                    Keeps-if agreed' _ _ (λ _. Keeps-pure tt tt) (λ _. Keeps-fail _))))))))
