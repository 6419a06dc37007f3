-- ===== src/App/Connect.antt =====
-- crates/reink-app/src/lib.rs: how `EpsonD4Session` is set up over a transport and shut down.
use reink_rust.Base.Text.{contains, text}
use reink_rust.Base.{
  inl, inr, ◌⊎◌, Bool, List, Option, Result, [], false, if◌then◌else◌, length, none, some, suc,
  true, zero, ◌++◌, ◌==◌, ◌∷◌, ℕ,
}
use reink_rust.Platform.Transport.{ByteTransport, TransportError}
use reink_rust.Epson.Spec.{EpsonSpec}
use reink_rust.Link.State.{
  ChannelId, D4Error, D4Link, Outcome, ok, err, panicked, out_of_fuel, new_link,
}
use reink_rust.Link.Session.{initialize}
use reink_rust.Link.Services.{open_service, close, exit_conversation}
use reink_rust.App.Plan.{
  ApplicationError, transport, d4, setup_recovered, setup_recovery, entry_reply_missing,
  entry_reply_invalid,
}
use reink_rust.App.Plan

abbrev pub epson_d4_entry_command : List ℕ
epson_d4_entry_command =
    0
    ∷ 0
    ∷ 0
    ∷ 0x1b
    ∷ 1
    ∷ (text "@EJL 1284.4" ++ (10 ∷ text "@EJL") ++ (10 ∷ text "@EJL") ++ (10 ∷ []))

abbrev pub epson_d4_entry_reply : List ℕ
epson_d4_entry_reply = 0 ∷ 0 ∷ 0 ∷ 8 ∷ 1 ∷ 0 ∷ 0xc5 ∷ 0 ∷ []

abbrev pub entry_reply_read_limit : ℕ
entry_reply_read_limit = 5

abbrev pub epson_ctrl : List ℕ
epson_ctrl = text "EPSON-CTRL"

module _ (T : ByteTransport) where
  abbrev pub no_entry : Bool → ApplicationError
  no_entry received_data = if received_data then entry_reply_invalid else entry_reply_missing

  -- The loop over the reads that are left, with the reply so far.
  unfoldable pub entry_loop :
      ℕ → Bool → List ℕ → T.Target → Result ApplicationError (Unit {0}) × T.Target
  unfolding contains
  entry_loop zero received_data reply t = (Result.err (no_entry received_data), t)
  entry_loop (suc reads) received_data reply t =
      let (r, t') = T.read t 256 in
      elim r [
        | Result.err e ↦ (Result.err (transport e), t')
        | Result.ok bytes ↦ elim (length bytes == 0) [
          | true ↦ entry_loop reads received_data reply t'
          | false ↦ elim (contains (reply ++ bytes) epson_d4_entry_reply) [
            | true ↦ (Result.ok tt, t')
            | false ↦ entry_loop reads true (reply ++ bytes) t'
          ]
        ]
      ]

  unfoldable pub wait_for_entry_reply : T.Target → Result ApplicationError (Unit {0}) × T.Target
  unfolding entry_loop
  wait_for_entry_reply t = entry_loop entry_reply_read_limit false [] t

  pub record EpsonD4Session : Type 0 where
    pub link : D4Link T
    pub control_channel : ChannelId
    pub spec : EpsonSpec

  -- What `connect_recoverable` comes to: a session; an error with the transport; a failed `expect`, or a
  -- peer that the fuel of the link's loops did not wait for.
  pub data Connected : Type 0 where
    session : EpsonD4Session → Connected
    refused : ApplicationError → T.Target → Connected
    connect_panicked : Connected
    connect_out_of_fuel : Connected

  module _ (spec : EpsonSpec) where
    abbrev pub recovered : D4Error → Outcome (Unit {0}) × D4Link T → Connected
    recovered setup (ok u, link) = refused (setup_recovered setup) link.target
    recovered setup (err recovery, link) = refused (setup_recovery setup recovery) link.target
    recovered setup (panicked, link) = connect_panicked
    recovered setup (out_of_fuel, link) = connect_out_of_fuel

    unfoldable pub service_opened : ℕ → Outcome ChannelId × D4Link T → Connected
    unfolding exit_conversation
    service_opened fuel (ok channel, link) =
        session (record { link = link; control_channel = channel; spec = spec })
    service_opened fuel (err setup, link) = recovered setup (exit_conversation fuel link)
    service_opened fuel (panicked, link) = connect_panicked
    service_opened fuel (out_of_fuel, link) = connect_out_of_fuel

    unfoldable pub initialized : ℕ → Outcome (Unit {0}) × D4Link T → Connected
    unfolding service_opened open_service
    initialized fuel (ok u, link) = service_opened fuel (open_service fuel epson_ctrl link)
    initialized fuel (err e, link) = refused (d4 e) link.target
    initialized fuel (panicked, link) = connect_panicked
    initialized fuel (out_of_fuel, link) = connect_out_of_fuel

    unfoldable pub entered : ℕ → Result ApplicationError (Unit {0}) × T.Target → Connected
    unfolding initialized initialize new_link
    entered fuel (Result.ok u, t) = initialized fuel (initialize fuel (new_link t))
    entered fuel (Result.err e, t) = refused e t

    unfoldable pub commanded : ℕ → Result TransportError (Unit {0}) × T.Target → Connected
    unfolding entered wait_for_entry_reply
    commanded fuel (Result.ok u, t) = entered fuel (wait_for_entry_reply t)
    commanded fuel (Result.err e, t) = refused (transport e) t

  unfoldable pub connect_recoverable : ℕ → T.Target → EpsonSpec → Connected
  unfolding commanded
  connect_recoverable fuel t spec = commanded spec fuel (T.write_all t epson_d4_entry_command)

  -- `map_err(|(error, _)| error)`: the transport is dropped.
  abbrev pub without_transport : Connected → Connected ⊎ ApplicationError
  without_transport (refused error t) = inr error
  without_transport c = inl c

  -- `EpsonD4Session::connect`
  unfoldable pub connect : ℕ → T.Target → EpsonSpec → Connected ⊎ ApplicationError
  unfolding connect_recoverable
  connect fuel t spec = without_transport (connect_recoverable fuel t spec)

  -- `into_transport`
  abbrev pub into_transport : EpsonD4Session → T.Target
  into_transport s = s.link.target

-- The error of a method, `.err()`, in a result that is there.
pub data Ending : Type 0 where
  returned : Result ApplicationError (Unit {0}) → Ending
  shutdown_panicked shutdown_out_of_fuel : Ending

abbrev pub ending : Option D4Error → Option D4Error → Ending
ending none none = returned (Result.ok tt)
ending close exit = returned (Result.err (Plan.shutdown close exit))

abbrev pub after_exit : Option D4Error → Outcome (Unit {0}) → Ending
after_exit close (ok u) = ending close none
after_exit close (err e) = ending close (some e)
after_exit close panicked = shutdown_panicked
after_exit close out_of_fuel = shutdown_out_of_fuel

module _ {T : ByteTransport} where
  unfoldable pub after_close : ℕ → Outcome (Unit {0}) × D4Link T → Ending × D4Link T
  unfolding exit_conversation
  after_close fuel (ok u, link) =
      let (r, link') = exit_conversation fuel link in (after_exit none r, link')
  after_close fuel (err e, link) =
      let (r, link') = exit_conversation fuel link in (after_exit (some e) r, link')
  after_close fuel (panicked, link) = (shutdown_panicked, link)
  after_close fuel (out_of_fuel, link) = (shutdown_out_of_fuel, link)

  -- The session's link after it, too.
  unfoldable pub shutdown : ℕ → EpsonD4Session T → Ending × D4Link T
  unfolding after_close close
  shutdown fuel s = after_close fuel (close fuel s.control_channel s.link)
