-- ===== src/Link/State.antt =====
-- crates/reink-d4/src/link.rs: the state of a link, its errors, and the state monad of its methods.
-- A `BTreeMap` of channels is a function; its order is never used.
use reink_rust.Base.{
  Bool, List, Option, Result, [], false, if◌then◌else◌, none, some, true, ◌&&◌, ◌==◌, ◌∷◌, ℕ,
}
use reink_rust.Packet.{Packet, PacketError, PacketDecoder, new_decoder}
use reink_rust.Transaction.{ProtocolRevision, v20, TransactionParseError}
use reink_rust.Platform.Transport.{ByteTransport, TransportError}

pub record ChannelId : Type 0 where
  pub peer_socket : ℕ
  pub source_socket : ℕ

abbrev pub same_channel : ChannelId → ChannelId → Bool
same_channel a b = a.peer_socket == b.peer_socket && a.source_socket == b.source_socket

-- `ChannelId::TRANSACTION`.
abbrev pub transaction_id : ChannelId
transaction_id = record { peer_socket = 0; source_socket = 0 }

pub record ChannelState : Type 0 where
  pub name : List ℕ
  pub credit : ℕ
  pub max_packet_size : ℕ
  pub max_service_size : ℕ
  pub max_credit : ℕ
  pub is_open : Bool

pub data ConversationState : Type 0 where
  inactive active exiting terminated : ConversationState

abbrev pub Channels : Type 0
Channels = ChannelId → Option ChannelState

abbrev pub set_channel : Channels → ChannelId → Option ChannelState → Channels
set_channel channels c v = λ k. if same_channel k c then v else channels k

pub record D4Link (T : ByteTransport) : Type 0 where
  pub target : T.Target
  pub revision : ProtocolRevision
  pub decoder : PacketDecoder
  pub received : List Packet
  pub channels : Channels
  pub conversation : ConversationState
  pub exit_requested : Bool

pub data D4Error : Type 0 where
  transport : TransportError → D4Error
  packet : PacketError → D4Error
  transaction : TransactionParseError → D4Error
  unknown_channel : ChannelId → D4Error
  insufficient_credit : ChannelId → (name : List ℕ) → D4Error
  unexpected_eof unexpected_transaction_reply conversation_inactive : D4Error
  conversation_already_active conversation_exiting conversation_terminated : D4Error
  transaction_channel_operation negotiation_failed : D4Error
  device_rejected : (result : ℕ) → D4Error
  credit_overflow : ChannelId → D4Error
  transaction_payload_too_large : (actual : ℕ) → D4Error
  packet_exceeds_negotiated_size : ChannelId → (actual maximum : ℕ) → D4Error

-- What a method comes to: a value, an error, a failed `expect`, or a loop that the fuel cut off.
pub data Outcome (A : Type 0) : Type 0 where
  ok : A → Outcome A
  err : D4Error → Outcome A
  panicked out_of_fuel : Outcome A

abbrev pub M : ByteTransport → Type 0 → Type 0
M T A = D4Link T → Outcome A × D4Link T

-- "(transaction channel)"
abbrev pub transaction_name : List ℕ
transaction_name =
    40 ∷ 116 ∷ 114 ∷ 97 ∷ 110 ∷ 115 ∷ 97 ∷ 99 ∷ 116 ∷ 105 ∷ 111 ∷ 110 ∷ 32 ∷ 99 ∷ 104 ∷ 97 ∷ 110
    ∷ 110 ∷ 101 ∷ 108 ∷ 41 ∷ []

module _ {T : ByteTransport} where
  abbrev pub continue : {A B : Type 0} → Outcome A → (A → M T B) → M T B
  continue (ok a) f s = f a s
  continue (err e) f s = (err e, s)
  continue panicked f s = (panicked, s)
  continue out_of_fuel f s = (out_of_fuel, s)

  infixl 10 ◌>>=◌ ◌>>◌
  unfoldable pub ◌>>=◌ : {A B : Type 0} → M T A → (A → M T B) → M T B
  ◌>>=◌ m f s = continue (m s).0 f (m s).1

  abbrev pub ◌>>◌ : {A B : Type 0} → M T A → M T B → M T B
  m >> k = m >>= λ _. k

  unfoldable pub pure : {A : Type 0} → A → M T A
  pure a s = (ok a, s)

  unfoldable pub fail : {A : Type 0} → D4Error → M T A
  fail e s = (err e, s)

  -- An `expect` fails.
  unfoldable pub panic : {A : Type 0} → M T A
  panic s = (panicked, s)

  -- The fuel of a loop is used up.
  unfoldable pub stop : {A : Type 0} → M T A
  stop s = (out_of_fuel, s)

  unfoldable pub gets : {A : Type 0} → (D4Link T → A) → M T A
  gets f s = (ok (f s), s)

  unfoldable pub modify : (D4Link T → D4Link T) → M T (Unit {0})
  modify f s = (ok tt, f s)

  -- An early return with an error, unless the test holds.
  unfoldable pub guard : Bool → D4Error → M T (Unit {0})
  unfolding pure fail
  guard true e = pure tt
  guard false e = fail e

  -- A result of another error type under `?`, by the `From` of that type.
  unfoldable pub lift : {E A : Type 0} → (E → D4Error) → Result E A → M T A
  unfolding pure fail
  lift f (Result.ok a) = pure a
  lift f (Result.err e) = fail (f e)

  -- `self.channels.get(&channel).ok_or(D4Error::UnknownChannel { channel })?`
  unfoldable pub known : ChannelId → M T ChannelState
  known c s = elim (s.channels c) [
    | none ↦ (err (unknown_channel c), s)
    | some state ↦ (ok state, s)
  ]

  -- `self.channels.get_mut(&channel).expect(..)`, and a change of what it finds.
  unfoldable pub expect_channel : ChannelId → (ChannelState → ChannelState) → M T (Unit {0})
  expect_channel c f s = elim (s.channels c) [
    | none ↦ (panicked, s)
    | some state ↦ (ok tt, record s { channels = set_channel s.channels c (some (f state)) })
  ]

  unfoldable pub write_all : List ℕ → M T (Unit {0})
  unfolding lift
  write_all bytes s =
      let (r, target) = T.write_all s.target bytes in
      lift transport r (record s { target = target })

  unfoldable pub new_link : T.Target → D4Link T
  new_link target = record {
    target = target;
    revision = v20;
    decoder = new_decoder;
    received = [];
    channels = λ c.
        if same_channel c transaction_id
        then some (record {
          name = transaction_name;
          credit = 0;
          max_packet_size = 64;
          max_service_size = 64;
          max_credit = 1;
          is_open = true;
        })
        else none;
    conversation = inactive;
    exit_requested = false;
  }
