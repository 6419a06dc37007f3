-- ===== src/App/Setup.antt =====
-- crates/reink-app/src/lib.rs: what a session that is set up, or shut down without an error, leaves of its link.
use reink_rust.Base.{Option, none, some, Result, ◌≡◌, ℕ, refl, subst}
use reink_rust.Platform.Transport.{TransportError, ByteTransport}
use reink_rust.Epson.Spec.{EpsonSpec}
use reink_rust.Link.State.{ChannelId, D4Link, Outcome, new_link}
use reink_rust.Link.State
use reink_rust.Link.Session.{initialize}
use reink_rust.Link.Services.{open_service, close, exit_conversation}
use reink_rust.Link.Keeps.{IsLink}
use reink_rust.Link.Reads.{ReadsBytes}
use reink_rust.Link.Reach.{new_link-IsLink}
use reink_rust.Link.Methods.{initialize-Keeps}
use reink_rust.Link.Opens.{open_service-Keeps, close-Keeps}
use reink_rust.Link.Leaves.{Opens, open_service-Leaves, exit_conversation-Leaves}
use reink_rust.Link.Ends.{IsEnded}
use reink_rust.App.Plan.{ApplicationError}
use reink_rust.App.Connect.{
  commanded, Connected, session, connect_recoverable, entered, initialized, service_opened,
  recovered, EpsonD4Session, shutdown, after_close, after_exit, returned, epson_ctrl,
  wait_for_entry_reply, epson_d4_entry_command,
}

exit_returned :
    (close : Option State.D4Error) (r : Outcome (Unit {0}))
    → after_exit close r ≡ returned (Result.ok tt)
    → r ≡ State.ok tt
exit_returned none (State.ok u) eq = refl
exit_returned (some e) (State.ok u) eq = refl
exit_returned none (State.err e) eq = absurd (cc eq)
exit_returned (some d) (State.err e) eq = absurd (cc eq)
exit_returned close State.panicked eq = absurd (cc eq)
exit_returned close State.out_of_fuel eq = absurd (cc eq)

module _ {T : ByteTransport} where
  -- A session whose link is well formed and has the channel of the session open.
  pub record IsReady (given : EpsonSpec) (s : EpsonD4Session T) : Type 0 where
    pub link : IsLink s.link
    pub control_channel : Opens s.control_channel s.link
    pub spec : s.spec ≡ given

  abbrev pub Ready : EpsonSpec → Connected T → Type 0
  Ready spec c = (s : EpsonD4Session T) → c ≡ session s → IsReady spec s

  session_eq : {r s : EpsonD4Session T} → ◌≡◌ {A = Connected T} (session r) (session s) → r ≡ s
  session_eq h = cc h

  recovered-Ready :
      (spec : EpsonSpec) (setup : State.D4Error) (r : Outcome (Unit {0}) × D4Link T)
      → Ready spec (recovered T spec setup r)
  recovered-Ready spec setup (State.ok u, link) s eq = absurd (cc eq)
  recovered-Ready spec setup (State.err e, link) s eq = absurd (cc eq)
  recovered-Ready spec setup (State.panicked, link) s eq = absurd (cc eq)
  recovered-Ready spec setup (State.out_of_fuel, link) s eq = absurd (cc eq)

  service_opened-Ready :
      (fuel : ℕ) (spec : EpsonSpec) (r : Outcome ChannelId × D4Link T)
      → IsLink r.1
      → ((c : ChannelId) → r.0 ≡ State.ok c → Opens c r.1)
      → Ready spec (service_opened T spec fuel r)
  unfolding service_opened
  service_opened-Ready fuel spec (State.ok channel, link) v o s eq =
      subst (IsReady spec) (session_eq eq)
        (record { link = v; control_channel = o channel refl; spec = refl })
  service_opened-Ready fuel spec (State.err e, link) v o s eq =
      recovered-Ready spec e (exit_conversation fuel link) s eq
  service_opened-Ready fuel spec (State.panicked, link) v o s eq = absurd (cc eq)
  service_opened-Ready fuel spec (State.out_of_fuel, link) v o s eq = absurd (cc eq)

  module _ (b : ReadsBytes T) (fuel : ℕ) (spec : EpsonSpec) where
    initialized-Ready :
        (r : Outcome (Unit {0}) × D4Link T) → IsLink r.1 → Ready spec (initialized T spec fuel r)
    unfolding initialized
    initialized-Ready (State.ok u, link) v s eq =
        service_opened-Ready fuel spec (open_service fuel epson_ctrl link)
          ((open_service-Keeps b fuel epson_ctrl).at link v).0
          ((open_service-Leaves b fuel epson_ctrl).at link v) s eq
    initialized-Ready (State.err e, link) v s eq = absurd (cc eq)
    initialized-Ready (State.panicked, link) v s eq = absurd (cc eq)
    initialized-Ready (State.out_of_fuel, link) v s eq = absurd (cc eq)

    entered-Ready :
        (r : Result ApplicationError (Unit {0}) × T.Target) → Ready spec (entered T spec fuel r)
    unfolding entered
    entered-Ready (Result.ok u, t) s eq =
        initialized-Ready (initialize fuel (new_link t))
          ((initialize-Keeps b fuel).at (new_link t) (new_link-IsLink t)).0 s eq
    entered-Ready (Result.err e, t) s eq = absurd (cc eq)

    commanded-Ready :
        (r : Result TransportError (Unit {0}) × T.Target) → Ready spec (commanded T spec fuel r)
    unfolding commanded
    commanded-Ready (Result.ok u, t) s eq = entered-Ready (wait_for_entry_reply T t) s eq
    commanded-Ready (Result.err e, t) s eq = absurd (cc eq)

    -- Over a transport whose reads give bytes, a session that is connected has a well-formed link on which
    -- its control channel is open, and the specification that was given.
    pub connect_recoverable-IsReady :
        (t : T.Target) (s : EpsonD4Session T)
        → connect_recoverable T fuel t spec ≡ session s
        → IsReady spec s
    unfolding connect_recoverable
    connect_recoverable-IsReady t s eq = commanded-Ready (T.write_all t epson_d4_entry_command) s eq

  module _ (b : ReadsBytes T) (fuel : ℕ) where
    after_close-IsEnded :
        (r : Outcome (Unit {0}) × D4Link T)
        → IsLink r.1
        → (after_close fuel r).0 ≡ returned (Result.ok tt)
        → IsEnded (after_close fuel r).1
    unfolding after_close
    after_close-IsEnded (State.ok u, link) v eq =
        (exit_conversation-Leaves b fuel).at link v tt (exit_returned none _ eq)
    after_close-IsEnded (State.err e, link) v eq =
        (exit_conversation-Leaves b fuel).at link v tt (exit_returned (some e) _ eq)
    after_close-IsEnded (State.panicked, link) v eq = absurd (cc eq)
    after_close-IsEnded (State.out_of_fuel, link) v eq = absurd (cc eq)

    -- Over a transport whose reads give bytes, a session with a well-formed link that is shut down without
    -- an error leaves the transaction channel alone, without credit, and the conversation terminated.
    pub shutdown-IsEnded :
        (s : EpsonD4Session T)
        → IsLink s.link
        → (shutdown fuel s).0 ≡ returned (Result.ok tt)
        → IsEnded (shutdown fuel s).1
    unfolding shutdown
    shutdown-IsEnded s v eq =
        after_close-IsEnded (close fuel s.control_channel s.link)
          ((close-Keeps b fuel s.control_channel).at s.link v).0 eq
