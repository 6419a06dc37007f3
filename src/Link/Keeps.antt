-- ===== src/Link/Keeps.antt =====
-- crates/reink-d4/src/link.rs: the invariant of a link, and one rule for each way to build a method.
use reink_rust.Base.Bytes.{IsByte}
use reink_rust.Base.{
  List, subst, All, Bool, Option, Result, false, if◌then◌else◌, none, refl, some, true, ◌<◌, ◌≡◌, ℕ,
}
use reink_rust.Packet.{IsPacket}
use reink_rust.Platform.Transport.{ByteTransport, TransportError}
use reink_rust.Link.State.{
  panic, stop, continue, ChannelId, same_channel, transaction_id, ChannelState, set_channel, D4Link,
  D4Error, Outcome, ok, err, panicked, out_of_fuel, M, ◌>>=◌, pure, fail, gets, modify, guard, lift,
  known, expect_channel, write_all,
}
use reink_rust.Link.Peer.{is_some}

-- The fields of a channel are 16-bit words.
pub record IsChannel (c : ChannelState) : Type 0 where
  pub credit : c.credit < 65536
  pub max_packet_size : c.max_packet_size < 65536
  pub max_service_size : c.max_service_size < 65536
  pub max_credit : c.max_credit < 65536

-- The transaction channel is always there; every channel has its field widths, so that its credit
-- has not wrapped; and what was received is made of well-formed packets and of bytes.
pub record IsLink {T : ByteTransport} (s : D4Link T) : Type 0 where
  pub present : is_some (s.channels transaction_id) ≡ true
  pub channels :
      (c : ChannelId) (state : ChannelState) → s.channels c ≡ some state → IsChannel state
  pub received : All IsPacket s.received
  pub buffered : All IsByte s.decoder.buffer

abbrev pub Post : {A : Type 0} → (A → Type 0) → Outcome A → Type 0
Post Q (ok a) = Q a
Post Q _ = Unit

-- A method keeps the invariant however it ends, and a value that it returns satisfies `Q`.
pub record Keeps {T : ByteTransport} {A : Type 0} (Q : A → Type 0) (m : M T A) : Type 0 where
  pub at : (s : D4Link T) → IsLink s → IsLink (m s).1 × Post Q (m s).0

pub some_eq : {a b : ChannelState} → some a ≡ some b → a ≡ b
some_eq h = cc

module _ {T : ByteTransport} {A : Type 0} where
  pub Keeps-pure : {Q : A → Type 0} (a : A) → Q a → Keeps {T = T} Q (pure a)
  unfolding pure
  Keeps-pure a q = record { at = λ s v. (v, q) }

  pub Keeps-fail : {Q : A → Type 0} (e : D4Error) → Keeps {T = T} Q (fail e)
  unfolding fail
  Keeps-fail e = record { at = λ s v. (v, tt) }

  pub Keeps-panic : {Q : A → Type 0} → Keeps {T = T} Q panic
  unfolding panic
  Keeps-panic = record { at = λ s v. (v, tt) }

  pub Keeps-stop : {Q : A → Type 0} → Keeps {T = T} Q stop
  unfolding stop
  Keeps-stop = record { at = λ s v. (v, tt) }

  pub Keeps-lift :
      {E : Type 0} (f : E → D4Error) (r : Result E A)
      → Keeps {T = T} (λ a. r ≡ Result.ok a) (lift f r)
  unfolding lift pure fail
  Keeps-lift f (Result.ok a) = record { at = λ s v. (v, refl) }
  Keeps-lift f (Result.err e) = record { at = λ s v. (v, tt) }

  pub Keeps-weaken : {Q R : A → Type 0} (m : M T A) → Keeps Q m → ((a : A) → Q a → R a) → Keeps R m
  Keeps-weaken m k f = record { at = λ s v. let (w, q) = k.at s v in (w, weaken_post _ f q) }
    where
      weaken_post : {Q R : A → Type 0} (o : Outcome A) → ((a : A) → Q a → R a) → Post Q o → Post R o
      weaken_post (ok a) f q = f a q
      weaken_post (err e) f q = tt
      weaken_post panicked f q = tt
      weaken_post out_of_fuel f q = tt

  pub Keeps-if :
      {Q : A → Type 0} (b : Bool) (m n : M T A)
      → (b ≡ true → Keeps Q m)
      → (b ≡ false → Keeps Q n)
      → Keeps Q (if b then m else n)
  Keeps-if true m n km kn = km refl
  Keeps-if false m n km kn = kn refl

module _ {T : ByteTransport} {A B : Type 0} where
  pub Keeps-bind :
      {Q : A → Type 0} {R : B → Type 0} (m : M T A) (f : A → M T B)
      → Keeps Q m
      → ((a : A) → Q a → Keeps R (f a))
      → Keeps R (m >>= f)
  unfolding ◌>>=◌
  Keeps-bind {Q} {R} m f km kf = record {
    at = λ s v. let (w, q) = km.at s v in then_keeps (m s).0 (m s).1 w q;
  }
    where
      then_keeps :
          (o : Outcome A) (s : D4Link T)
          → IsLink s
          → Post Q o
          → IsLink (continue o f s).1 × Post R (continue o f s).0
      then_keeps (ok a) s v q = (kf a q).at s v
      then_keeps (err e) s v q = (v, tt)
      then_keeps panicked s v q = (v, tt)
      then_keeps out_of_fuel s v q = (v, tt)

-- What a test that was passed tells.
module _ {T : ByteTransport} where
  pub Keeps-guard : (b : Bool) (e : D4Error) → Keeps {T = T} (λ _. b ≡ true) (guard b e)
  unfolding guard pure fail
  Keeps-guard true e = record { at = λ s v. (v, refl) }
  Keeps-guard false e = record { at = λ s v. (v, tt) }

  pub Keeps-gets : {A : Type 0} (f : D4Link T → A) → Keeps {T = T} (λ _. Unit {0}) (gets f)
  unfolding gets
  Keeps-gets f = record { at = λ s v. (v, tt) }

  pub Keeps-known : (c : ChannelId) → Keeps {T = T} IsChannel (known c)
  unfolding known
  Keeps-known c = record { at = λ s v. found s v (s.channels c) refl }
    where
      found :
          (s : D4Link T)
          → IsLink s
          → (o : Option ChannelState) → s.channels c ≡ o
          → IsLink (known {T = T} c s).1 × Post IsChannel (known {T = T} c s).0
      found s v none e = rw (e, known) (v, tt)
      found s v (some state) e = rw (e, known) (v, v.channels c state e)

  pub Keeps-modify :
      (f : D4Link T → D4Link T)
      → ((s : D4Link T) → IsLink s → IsLink (f s))
      → Keeps (λ _. Unit {0}) (modify f)
  unfolding modify
  Keeps-modify f h = record { at = λ s v. (h s v, tt) }

  -- The entry of one channel is set.
  pub set_channel-IsLink :
      (s : D4Link T) (c : ChannelId) (o : Option ChannelState)
      → IsLink s
      → ((state : ChannelState) → o ≡ some state → IsChannel state)
      → (same_channel transaction_id c ≡ true → is_some o ≡ true)
      → IsLink (record s { channels = set_channel s.channels c o })
  set_channel-IsLink s c o v fits stays = record {
    present = kept (same_channel transaction_id c) refl;
    channels = λ k state e. entry k state (same_channel k c) refl e;
    received = v.received;
    buffered = v.buffered;
  }
    where
      kept :
          (b : Bool)
          → same_channel transaction_id c ≡ b
          → is_some (set_channel s.channels c o transaction_id) ≡ true
      kept true e = rw e (stays e)
      kept false e = rw e v.present

      entry :
          (k : ChannelId) (state : ChannelState) (b : Bool)
          → same_channel k c ≡ b
          → set_channel s.channels c o k ≡ some state
          → IsChannel state
      entry k state true e h = fits state (rw e at h)
      entry k state false e h = v.channels k state (rw e at h)

  pub Keeps-expect :
      (c : ChannelId) (f : ChannelState → ChannelState)
      → ((state : ChannelState) → IsChannel state → IsChannel (f state))
      → Keeps (λ _. Unit {0}) (expect_channel {T = T} c f)
  unfolding expect_channel
  Keeps-expect c f fits = record { at = λ s v. found s v (s.channels c) refl }
    where
      found :
          (s : D4Link T)
          → IsLink s
          → (o : Option ChannelState) → s.channels c ≡ o
          → IsLink (expect_channel {T = T} c f s).1
            × Post (λ _. Unit {0}) (expect_channel {T = T} c f s).0
      found s v none e = rw (e, expect_channel) (v, tt)
      found s v (some state) e =
          rw (e, expect_channel)
            (
              set_channel-IsLink s c (some (f state)) v
                  (λ state' h. subst IsChannel (some_eq h) (fits state (v.channels c state e)))
                  (λ _. refl),
              tt,
            )

  pub Keeps-write : (bytes : List ℕ) → Keeps (λ _. Unit {0}) (write_all {T = T} bytes)
  unfolding write_all lift pure fail
  Keeps-write bytes = record { at = λ s v. written s v (T.write_all s.target bytes).0 refl }
    where
      written :
          (s : D4Link T)
          → IsLink s
          → (r : Result TransportError (Unit {0})) → (T.write_all s.target bytes).0 ≡ r
          → IsLink (write_all {T = T} bytes s).1
            × Post (λ _. Unit {0}) (write_all {T = T} bytes s).0
      written s v (Result.ok u) e =
          rw (e, write_all)
            (
              record {
                present = v.present;
                channels = v.channels;
                received = v.received;
                buffered = v.buffered;
              },
              tt,
            )
      written s v (Result.err x) e =
          rw (e, write_all)
            (
              record {
                present = v.present;
                channels = v.channels;
                received = v.received;
                buffered = v.buffered;
              },
              tt,
            )
