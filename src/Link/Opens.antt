-- ===== src/Link/Opens.antt =====
-- crates/reink-d4/src/link.rs: the invariant under opening, using and closing a service channel.
use reink_rust.Base.{
  All, Bool, List, Option, arith, false, ltb, ltb→lt, none, not, refl, some, subst, suc, true, zero,
  ◌+◌, ◌≡◌, ℕ,
}
use reink_rust.Base.Bytes.{IsByte}
use reink_rust.Transaction.{
  TransactionMessage, open_channel_reply, close_channel_reply, credit_request_reply,
  get_socket_id_reply, get_service_name_reply, is_command,
}
use reink_rust.Transaction.Bounds.{IsMessage}
use reink_rust.Platform.Transport.{ByteTransport}
use reink_rust.Link.State.{
  ChannelId, same_channel, transaction_id, ChannelState, set_channel, D4Link,
}
use reink_rust.Link.Peer.{is_some}
use reink_rust.Link.Io.{packet_channel}
use reink_rust.Link.Session.{on_transaction_channel, is_terminated}
use reink_rust.Link.Services.{
  pending_channel, socket_of, finish_open, open_service, named_reply, service_name, finish_close,
  close, exit_conversation, grant_to, grant, credit_rounds, ensure_channel_credit, request_loop,
  request,
}
use reink_rust.Link.Keeps.{
  some_eq, Keeps-panic, set_channel-IsLink, IsChannel, IsLink, Keeps, Keeps-pure, Keeps-fail,
  Keeps-stop, Keeps-if, Keeps-bind, Keeps-guard, Keeps-gets, Keeps-known, Keeps-modify,
  Keeps-expect,
}
use reink_rust.Link.Invariant.{
  Any, send-Keeps, apply_credit-Keeps, require_active_conversation-Keeps,
}
use reink_rust.Link.Reads.{ReadsBytes, next_packet-Keeps}
use reink_rust.Link.Methods.{transact-Keeps, received-Keeps, queued-IsLink}
use reink_rust.Link.Answers.{
  with_credit-IsChannel, handle_peer_transaction-Keeps, terminate_conversation-Keeps,
  Keeps-modify_rest,
}

not-true : (c : Bool) → not c ≡ true → c ≡ false
not-true c h = ground arith

pending_channel-IsChannel : (name : List ℕ) → IsChannel (pending_channel name)
pending_channel-IsChannel name = record {
  credit = omega arith;
  max_packet_size = omega arith;
  max_service_size = omega arith;
  max_credit = omega arith;
}

other_way :
    (c : ChannelId)
    → same_channel c transaction_id ≡ false
    → same_channel transaction_id c ≡ true
    → is_some none ≡ true
other_way c h k = ground arith

module _ {T : ByteTransport} where
  pub socket_of-Keeps :
      (name : List ℕ) (reply : TransactionMessage) → Keeps {T = T} Any (socket_of name reply)
  unfolding socket_of
  socket_of-Keeps name (get_socket_id_reply result socket returned) =
      Keeps-bind _ _ (Keeps-guard _ _) (λ _ _. Keeps-pure _ tt)
  socket_of-Keeps name _ = Keeps-fail _

  finish_open-Keeps :
      (channel : ChannelId) (reply : TransactionMessage)
      → IsMessage reply
      → Keeps {T = T} Any (finish_open channel reply)
  unfolding finish_open
  finish_open-Keeps channel
        (open_channel_reply result peer source packet_size service_size max granted) w =
      Keeps-bind _ _ (Keeps-guard _ _) (λ _ _.
        Keeps-bind _ _
          (Keeps-expect channel _ (λ c v. record {
            credit = w.6;
            max_packet_size = w.3;
            max_service_size = w.4;
            max_credit = w.5;
          }))
          (λ _ _. Keeps-pure channel tt))
  finish_open-Keeps channel _ w = Keeps-fail _

  -- The entry of a channel that is being opened, or that is removed.
  pub entered-IsLink :
      (channel : ChannelId) (name : List ℕ) (s : D4Link T)
      → IsLink s
      → IsLink
          (record s { channels = set_channel s.channels channel (some (pending_channel name)) })
  entered-IsLink channel name s v =
      set_channel-IsLink s channel _ v
        (λ state h. subst IsChannel (some_eq h) (pending_channel-IsChannel name)) (λ _. refl)

  named_reply-Keeps :
      (socket : ℕ) (reply : TransactionMessage) → Keeps {T = T} Any (named_reply socket reply)
  unfolding named_reply
  named_reply-Keeps socket (get_service_name_reply result returned name) =
      Keeps-bind _ _ (Keeps-guard _ _) (λ _ _. Keeps-pure name tt)
  named_reply-Keeps socket _ = Keeps-fail _

  finish_close-Keeps :
      (channel : ChannelId) (reply : TransactionMessage)
      → same_channel channel transaction_id ≡ false
      → Keeps {T = T} Any (finish_close channel reply)
  unfolding finish_close
  finish_close-Keeps channel (close_channel_reply result peer source) other =
      Keeps-bind _ _ (Keeps-guard _ _) (λ _ _.
        Keeps-modify _
          (λ s v. set_channel-IsLink s channel none v (λ state h. cc) (other_way channel other)))
  finish_close-Keeps channel _ other = Keeps-fail _

  grant_to-Keeps :
      (channel : ChannelId) (added : ℕ) (o : Option ChannelState)
      → Keeps {T = T} Any (grant_to channel added o)
  unfolding grant_to
  grant_to-Keeps channel added none = Keeps-panic
  grant_to-Keeps channel added (some state) =
      Keeps-bind _ _ (Keeps-guard (ltb (state.credit + added) 65536) _) (λ _ small.
        Keeps-bind _ _
          (Keeps-expect channel (λ c. record c { credit = state.credit + added })
            (with_credit-IsChannel (state.credit + added) (ltb→lt _ _ small)))
          (λ _ _. Keeps-pure _ tt))

  grant-Keeps :
      (channel : ChannelId) (reply : TransactionMessage) → Keeps {T = T} Any (grant channel reply)
  unfolding grant
  grant-Keeps channel (credit_request_reply result peer source added) =
      Keeps-bind _ _ (Keeps-guard _ _)
        (λ _ _. Keeps-bind _ _ (Keeps-gets _) (λ present _. grant_to-Keeps channel added present))
  grant-Keeps channel _ = Keeps-fail _

  module _ (b : ReadsBytes T) where
    pub open_service-Keeps : (fuel : ℕ) (name : List ℕ) → Keeps {T = T} Any (open_service fuel name)
    unfolding open_service
    open_service-Keeps fuel name = Keeps-bind _ _ (transact-Keeps b fuel _ _) (λ reply _.
        Keeps-bind _ _ (socket_of-Keeps name reply) (λ channel _.
          Keeps-bind _ _ (Keeps-modify _ (entered-IsLink channel name)) (λ _ _.
            Keeps-bind _ _ (transact-Keeps b fuel _ _)
              (λ reply' w. finish_open-Keeps channel reply' w))))

    pub service_name-Keeps : (fuel socket : ℕ) → Keeps {T = T} Any (service_name fuel socket)
    unfolding service_name
    service_name-Keeps fuel socket =
        Keeps-bind _ _ (transact-Keeps b fuel _ _) (λ reply _. named_reply-Keeps socket reply)

    pub close-Keeps : (fuel : ℕ) (channel : ChannelId) → Keeps {T = T} Any (close fuel channel)
    unfolding close
    close-Keeps fuel channel =
        Keeps-bind _ _ (Keeps-guard (not (same_channel channel transaction_id)) _) (λ _ other.
          Keeps-bind _ _ (Keeps-gets _) (λ state _. Keeps-bind _ _ (Keeps-guard _ _) (λ _ _.
            Keeps-bind _ _ (transact-Keeps b fuel _ _)
              (λ reply _. finish_close-Keeps channel reply (not-true _ other)))))

    pub exit_conversation-Keeps : (fuel : ℕ) → Keeps {T = T} Any (exit_conversation fuel)
    unfolding exit_conversation
    exit_conversation-Keeps fuel = Keeps-bind _ _ require_active_conversation-Keeps (λ _ _.
        Keeps-bind _ _
          (Keeps-modify_rest (λ s. record s { exit_requested = true }) (λ s. refl) (λ s. refl)
            (λ s. refl))
          (λ _ _.
            Keeps-bind _ _ (transact-Keeps b fuel _ _)
              (λ reply _. Keeps-bind _ _ (Keeps-guard _ _) (λ _ _. terminate_conversation-Keeps))))

    credit_rounds-Keeps :
        (fuel rounds : ℕ) (channel : ChannelId)
        → Keeps {T = T} Any (credit_rounds fuel rounds channel)
    unfolding credit_rounds
    credit_rounds-Keeps fuel zero channel =
        Keeps-bind _ _ (Keeps-known channel) (λ state _. Keeps-fail _)
    credit_rounds-Keeps fuel (suc rounds) channel = Keeps-bind _ _ (Keeps-known channel) (λ state _.
        Keeps-if (ltb 0 state.credit) _ _ (λ _. Keeps-pure tt tt)
          (λ _. Keeps-bind _ _ (transact-Keeps b fuel _ _) (λ reply _.
            Keeps-bind _ _ (grant-Keeps channel reply) (λ granted _.
              Keeps-if granted _ _ (λ _. Keeps-pure tt tt)
                (λ _. credit_rounds-Keeps fuel rounds channel)))))

    request_loop-Keeps :
        (fuel : ℕ) (channel : ChannelId) → Keeps {T = T} (All IsByte) (request_loop fuel channel)
    unfolding request_loop
    request_loop-Keeps zero channel = Keeps-stop
    request_loop-Keeps (suc fuel) channel = Keeps-bind _ _ (next_packet-Keeps b) (λ p w.
        Keeps-if (on_transaction_channel p) _ _
          (λ _. Keeps-bind _ _ (apply_credit-Keeps p) (λ _ _.
            Keeps-bind _ _ (Keeps-gets (λ s. s.revision)) (λ revision _.
              Keeps-bind _ _ (received-Keeps p revision w) (λ m _.
                Keeps-bind _ _ (Keeps-guard (is_command m) _) (λ _ _.
                  Keeps-bind _ _ (handle_peer_transaction-Keeps m) (λ _ _.
                    Keeps-bind _ _ (Keeps-gets (λ s. s.conversation)) (λ conversation _.
                      Keeps-bind _ _ (Keeps-guard (not (is_terminated conversation)) _)
                        (λ _ _. request_loop-Keeps fuel channel))))))))
          (λ _. Keeps-bind _ _ (Keeps-gets (λ s. s.conversation)) (λ conversation _.
            Keeps-if (is_terminated conversation) _ _ (λ _. request_loop-Keeps fuel channel)
              (λ _. Keeps-bind _ _ (apply_credit-Keeps p) (λ _ _.
                Keeps-if (same_channel (packet_channel p) channel) _ _
                  (λ _. Keeps-pure p.payload w.payload)
                  (λ _.
                    Keeps-bind _ _ (Keeps-modify _ (queued-IsLink p w))
                      (λ _ _. request_loop-Keeps fuel channel)))))))

    -- A request keeps the invariant, and what it returns is made of bytes.
    pub request-Keeps :
        (fuel : ℕ) (channel : ChannelId) (payload : List ℕ)
        → Keeps {T = T} (All IsByte) (request fuel channel payload)
    unfolding request ensure_channel_credit
    request-Keeps fuel channel payload = Keeps-bind _ _ require_active_conversation-Keeps (λ _ _.
        Keeps-bind _ _ (credit_rounds-Keeps fuel 3 channel) (λ _ _.
          Keeps-bind _ _ (send-Keeps channel payload true)
            (λ _ _. request_loop-Keeps fuel channel)))
