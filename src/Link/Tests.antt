-- ===== src/Link/Tests.antt =====
-- The theorems about a link at a concrete link.
use reink_rust.Platform.Transport.{TransportError}
use reink_rust.Base.{List, Result, ℕ, [], arith, false, none, refl, some, true, ◌∷◌, ◌≡◌}
use reink_rust.Packet.{new_packet, new_header, encode_header, Packet, new_decoder}
use reink_rust.Transaction.{v20}
use reink_rust.Link.State.{
  transaction_id, Outcome, ◌>>=◌, pure, fail, gets, guard, lift, known, expect_channel, write_all,
  new_link, D4Link, active, set_channel, out_of_fuel,
}
use reink_rust.Link.Io.{require_active_conversation, send, next_packet}
use reink_rust.Link.Peer.{terminate_conversation}
use reink_rust.Link.Session.{transaction_loop}
use reink_rust.Link.Keeps.{IsLink}
use reink_rust.Link.Returns.{settles, next_packet-settles}
use reink_rust.Link.Ends.{IsEnded, terminate_conversation-IsEnded}
use reink_rust.Link.Reach.{Reached-IsLink, after_call, created, called, initializes, opens}
use reink_rust.Link.Spin.{transaction_loop-spins}
use reink_rust.Link.Script.{
  next_chunk, silent, control_id, control_state, scripted, scripted-ReadsBytes, greeting,
}
use reink_rust.Link.Credit.{Spent, send-Spent}

abbrev next_read : List (List ℕ) → ℕ → Result TransportError (List ℕ) × List (List ℕ)
next_read script capacity = next_chunk script

abbrev late_reply : Packet
late_reply = record {
  header = record { peer_socket = 2; source_socket = 2; length = 7; credit = 0; control = 0 };
  payload = 65 ∷ [];
}

abbrev busy_link : D4Link silent
busy_link = record {
  target = 0;
  revision = v20;
  decoder = new_decoder;
  received = late_reply ∷ [];
  channels = set_channel (λ c. none) control_id (some control_state);
  conversation = active;
  exit_requested = false;
}

transaction_loop-spins_example :
    ((transaction_loop 1000000 0x84 busy_link).0 ≡ out_of_fuel)
    × ((transaction_loop 1000000 0x84 busy_link).1.target ≡ 0)
transaction_loop-spins_example =
    transaction_loop-spins 1000000 0x84 late_reply control_state busy_link (record {
      received = refl;
      service = refl;
      running = refl;
      entry = refl;
      fits = refl;
      no_credit = refl;
      bounded = omega arith;
    })

Reached-IsLink_example :
    IsLink {T = scripted}
      (after_call 8 (opens (67 ∷ [])) (after_call 8 initializes (new_link greeting)))
Reached-IsLink_example =
    Reached-IsLink _ scripted-ReadsBytes
      (called 8 (opens (67 ∷ [])) _ (called 8 initializes _ (created greeting)))

-- A link that waits for the reply to a request to open `control_id`.
abbrev opening_link : D4Link silent
opening_link = record {
  target = 0;
  revision = v20;
  decoder = new_decoder;
  received = [];
  channels =
      set_channel (set_channel (λ c. none) control_id (some control_state)) transaction_id
        (some control_state);
  conversation = active;
  exit_requested = false;
}

terminate_conversation-IsEnded_example :
    ((terminate_conversation opening_link).0 ≡ Outcome.ok tt)
    × IsEnded (terminate_conversation opening_link).1
terminate_conversation-IsEnded_example = terminate_conversation-IsEnded opening_link refl

next_packet-settles_example : settles (next_packet {T = scripted} (new_link greeting)).0 ≡ true
next_packet-settles_example =
    next_packet-settles (new_link greeting) scripted-ReadsBytes
      (Reached-IsLink _ scripted-ReadsBytes (created greeting))

send_done : (send control_id (65 ∷ []) true opening_link).0 ≡ Outcome.ok tt
unfolding send ◌>>=◌ gets known guard lift write_all expect_channel pure fail
    require_active_conversation new_packet new_header encode_header
send_done = refl

send-Spent_example :
    Spent control_id 1 control_state (send control_id (65 ∷ []) true opening_link).1
send-Spent_example =
    send-Spent control_id (65 ∷ []) control_state opening_link refl (omega arith) send_done
