-- ===== src/Link/Control.antt =====
-- crates/reink-d4/src/link.rs: the control channel that a link hands out, `D4ControlChannel`. It borrows the
-- link, so that its state is the link's.
use reink_rust.Base.{List, Result, String, ℕ}
use reink_rust.Platform.Transport.{ByteTransport}
use reink_rust.Platform.Control.{ControlError, protocol}
use reink_rust.Link.State.{
  ChannelId, D4Error, D4Link, M, Outcome, ◌>>=◌, ◌>>◌, gets, guard, pure, unknown_channel,
}
use reink_rust.Link.State
use reink_rust.Link.Session.{is_open_channel}
use reink_rust.Link.Services.{request}

-- What a request on the channel comes to: a reply or an error of the channel, a failed `expect`, or a loop
-- that the fuel cut off.
pub data Replied : Type 0 where
  answer : Result ControlError (List ℕ) → Replied
  panicked out_of_fuel : Replied

-- `map_err`, with the text of the error.
abbrev pub replied : (D4Error → String) → Outcome (List ℕ) → Replied
replied to_string (State.ok reply) = answer (Result.ok reply)
replied to_string (State.err e) = answer (Result.err (protocol (to_string e)))
replied to_string State.panicked = panicked
replied to_string State.out_of_fuel = out_of_fuel

module _ {T : ByteTransport} where
  -- The link whose channel it is, under the name of the channel.
  unfoldable pub control_channel : ChannelId → M T ChannelId
  control_channel channel = do
    state ← gets (λ s. s.channels channel)
    guard (is_open_channel state) (unknown_channel channel)
    pure channel

  -- `D4ControlChannel::request`
  unfoldable pub control_request :
      (D4Error → String) → ℕ → ChannelId → List ℕ → D4Link T → Replied × D4Link T
  unfolding request
  control_request to_string fuel channel payload s =
      let (r, s') = request fuel channel payload s in (replied to_string r, s')
