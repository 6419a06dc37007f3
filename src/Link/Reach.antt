-- ===== src/Link/Reach.antt =====
-- crates/reink-d4/src/link.rs: the links that calls of the methods of `D4Link` can reach.
use reink_rust.Base.{Bool, arith, false, some, subst, true, ◌≡◌, List, refl, ℕ}
use reink_rust.Platform.Transport.{ByteTransport}
use reink_rust.Link.State.{ChannelState, ChannelId, D4Link, new_link, same_channel, transaction_id}
use reink_rust.Link.Session.{initialize}
use reink_rust.Link.Services.{open_service, service_name, close, exit_conversation, request}
use reink_rust.Link.Keeps.{some_eq, IsLink, IsChannel}
use reink_rust.Link.Reads.{ReadsBytes}
use reink_rust.Link.Methods.{initialize-Keeps}
use reink_rust.Link.Opens.{
  open_service-Keeps, service_name-Keeps, close-Keeps, exit_conversation-Keeps, request-Keeps,
}

-- A call of a public method.
pub data Call : Type 0 where
  initializes exits : Call
  opens : (name : List ℕ) → Call
  names : (socket : ℕ) → Call
  closes : ChannelId → Call
  requests : ChannelId → (payload : List ℕ) → Call

module _ {T : ByteTransport} where
  -- The link after a call, however the call ends.
  pub after_call : ℕ → Call → D4Link T → D4Link T
  after_call fuel initializes s = (initialize fuel s).1
  after_call fuel exits s = (exit_conversation fuel s).1
  after_call fuel (opens name) s = (open_service fuel name s).1
  after_call fuel (names socket) s = (service_name fuel socket s).1
  after_call fuel (closes channel) s = (close fuel channel s).1
  after_call fuel (requests channel payload) s = (request fuel channel payload s).1

  -- A new link, and whatever a call makes of a link that was reached.
  pub data Reached : D4Link T → Type 0 where
    created : (target : T.Target) → Reached (new_link target)
    called : (fuel : ℕ) (call : Call) (s : D4Link T) → Reached s → Reached (after_call fuel call s)

  pub new_link-IsLink : (target : T.Target) → IsLink {T = T} (new_link target)
  unfolding new_link
  new_link-IsLink target = record {
    present = refl;
    channels = λ c state h. entry c state (same_channel c transaction_id) refl h;
    received = tt;
    buffered = tt;
  }
    where
      entry :
          (c : ChannelId) (state : ChannelState) (b : Bool)
          → same_channel c transaction_id ≡ b
          → (new_link {T = T} target).channels c ≡ some state
          → IsChannel state
      entry c state true e h = subst IsChannel (some_eq (rw e at h)) (record {
        credit = omega arith;
        max_packet_size = omega arith;
        max_service_size = omega arith;
        max_credit = omega arith;
      })
      entry c state false e h = cc (rw e at h)

  after_call-IsLink :
      (fuel : ℕ) (call : Call) (s : D4Link T)
      → ReadsBytes T
      → IsLink s
      → IsLink (after_call fuel call s)
  unfolding after_call
  after_call-IsLink fuel initializes s b v = ((initialize-Keeps b fuel).at s v).0
  after_call-IsLink fuel exits s b v = ((exit_conversation-Keeps b fuel).at s v).0
  after_call-IsLink fuel (opens name) s b v = ((open_service-Keeps b fuel name).at s v).0
  after_call-IsLink fuel (names socket) s b v = ((service_name-Keeps b fuel socket).at s v).0
  after_call-IsLink fuel (closes channel) s b v = ((close-Keeps b fuel channel).at s v).0
  after_call-IsLink fuel (requests channel payload) s b v =
      ((request-Keeps b fuel channel payload).at s v).0

  -- Over a transport whose reads give bytes, every link that calls of the methods reach, whether they
  -- succeed, fail or panic and whatever the peer sends, is well formed: the transaction channel is
  -- there, the credit and sizes of every channel are 16-bit words, and what is queued and buffered is
  -- made of well-formed packets and of bytes.
  pub Reached-IsLink : (s : D4Link T) → ReadsBytes T → Reached s → IsLink s
  Reached-IsLink _ b (created target) = new_link-IsLink target
  Reached-IsLink _ b (called fuel call s r) = after_call-IsLink fuel call s b (Reached-IsLink s b r)
