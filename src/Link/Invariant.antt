-- ===== src/Link/Invariant.antt =====
-- crates/reink-d4/src/link.rs: the invariant of a link under sending and under credit.
use reink_rust.Base.{subst, sym, Bool, List, arith, ◌≡◌, ℕ}
use reink_rust.Packet.{Packet}
use reink_rust.Platform.Transport.{ByteTransport}
use reink_rust.Transaction.{TransactionMessage}
use reink_rust.Link.State.{ChannelId, ChannelState, D4Link, Outcome, ok, err, panicked, out_of_fuel}
use reink_rust.Link.Io.{
  adds_u16, require_active_conversation, pred_u16, add_u16, send, send_error, apply_credit,
  send_transaction, packet_channel,
}
use reink_rust.Link.Keeps.{
  Post, IsChannel, IsLink, Keeps, Keeps-pure, Keeps-fail, Keeps-lift, Keeps-if, Keeps-bind,
  Keeps-guard, Keeps-gets, Keeps-known, Keeps-expect, Keeps-write,
}

-- What an operation without a result promises.
abbrev pub Any : {A : Type 0} → A → Type 0
Any a = Unit

pred_credit-IsChannel :
    (c : ChannelState) → IsChannel c → IsChannel (record c { credit = pred_u16 c.credit })
pred_credit-IsChannel c v = record {
  credit = omega arith;
  max_packet_size = v.max_packet_size;
  max_service_size = v.max_service_size;
  max_credit = v.max_credit;
}

add_credit-IsChannel :
    (added : ℕ) (c : ChannelState)
    → IsChannel c
    → IsChannel (record c { credit = add_u16 c.credit added })
add_credit-IsChannel added c v = record {
  credit = omega arith;
  max_packet_size = v.max_packet_size;
  max_service_size = v.max_service_size;
  max_credit = v.max_credit;
}

Any-Post : {A : Type 0} (o : Outcome A) → Post Any o
Any-Post (ok a) = tt
Any-Post (err e) = tt
Any-Post panicked = tt
Any-Post out_of_fuel = tt

module _ {T : ByteTransport} where
  pub require_active_conversation-Keeps : Keeps {T = T} Any require_active_conversation
  unfolding require_active_conversation
  require_active_conversation-Keeps = record {
    at = λ s v. (subst IsLink (sym (unchanged s)) v, Any-Post _);
  }
    where
      unchanged : (s : D4Link T) → (require_active_conversation {T = T} s).1 ≡ s
      unchanged s = ground arith

  pub send-Keeps :
      (channel : ChannelId) (payload : List ℕ) (consume_credit : Bool)
      → Keeps {T = T} Any (send channel payload consume_credit)
  unfolding send
  send-Keeps channel payload consume_credit = Keeps-bind _ _ (Keeps-gets _) (λ conversation _.
      Keeps-bind _ _
        (Keeps-if _ _ _ (λ _. Keeps-pure tt tt) (λ _. require_active_conversation-Keeps))
        (λ _ _. Keeps-bind _ _ (Keeps-known channel) (λ state w.
          Keeps-bind _ _ (Keeps-guard _ _) (λ _ _. Keeps-bind _ _ (Keeps-guard _ _) (λ _ _.
            Keeps-bind _ _ (Keeps-guard _ _) (λ _ _. Keeps-bind _ _ (Keeps-lift _ _) (λ p _.
              Keeps-bind _ _ (Keeps-write _) (λ _ _.
                Keeps-if _ _ _
                  (λ _.
                    Keeps-expect channel (λ c. record c { credit = pred_u16 c.credit })
                      pred_credit-IsChannel)
                  (λ _. Keeps-pure tt tt)))))))))

  pub send_error-Keeps :
      (channel : ChannelId) (error_code : ℕ) → Keeps {T = T} Any (send_error channel error_code)
  unfolding send_error
  send_error-Keeps channel error_code = Keeps-bind _ _ (Keeps-gets _) (λ revision _.
      Keeps-bind _ _ (Keeps-lift _ _)
        (λ payload _. Keeps-bind _ _ (Keeps-lift _ _) (λ p _. Keeps-write _)))

  pub apply_credit-Keeps : (p : Packet) → Keeps {T = T} Any (apply_credit p)
  unfolding apply_credit
  apply_credit-Keeps p = Keeps-bind _ _ (Keeps-known (packet_channel p)) (λ state w.
      Keeps-bind _ _ (Keeps-guard _ _) (λ _ _.
        Keeps-if (adds_u16 state.credit p.header.credit) _ _
          (λ _.
            Keeps-expect (packet_channel p)
              (λ c. record c { credit = add_u16 c.credit p.header.credit })
              (add_credit-IsChannel p.header.credit))
          (λ _. Keeps-bind _ _ (send_error-Keeps _ _) (λ _ _. Keeps-fail _))))

  pub send_transaction-Keeps :
      (message : TransactionMessage) (consume_credit : Bool)
      → Keeps {T = T} Any (send_transaction message consume_credit)
  unfolding send_transaction
  send_transaction-Keeps message consume_credit = Keeps-bind _ _ (Keeps-gets _) (λ revision _.
      Keeps-bind _ _ (Keeps-lift _ _)
        (λ payload _. Keeps-bind _ _ (Keeps-guard _ _) (λ _ _. send-Keeps _ _ _)))
