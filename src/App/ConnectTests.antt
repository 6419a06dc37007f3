-- ===== src/App/ConnectTests.antt =====
-- crates/reink-app/src/lib.rs: a session with a scripted printer, from the entry to the exit.
use reink_rust.Link.Keeps.{IsLink}
use reink_rust.App.Cleanup.{with_selected_usb_epson_session-CleanedUp, CleanedUp}
use reink_rust.App.Selected.{with_selected_usb_epson_session, UsbTransport, recorded}
use reink_rust.Link.Peer.{terminate_conversation}
use reink_rust.App.Entry.{wait_for_entry_reply-verdict, joined, verdict, read_all}
use reink_rust.Link.Ends.{IsEnded}
use reink_rust.Base.Text.{contains, find, starts_with}
use reink_rust.Base.{
  String, Result, suc, zero, Bool, arith, false, true, List, [], refl, ◌∷◌, ◌≡◌, ℕ,
}
use reink_rust.Packet.{
  push, take_packet, drained, decode_header, new_packet, new_header, encode_header,
}
use reink_rust.Transaction.{
  decode_close_channel_reply, decode_exit_reply, encode, decode_get_socket_id_reply,
  decode_open_channel_reply, ascii, ascii_from, is_ascii, is_name, decode, decode_body,
  decode_init_reply, from_byte, encode_fields,
}
use reink_rust.Link.State.{
  transaction_id, ◌>>=◌, pure, fail, gets, modify, guard, lift, known, expect_channel, write_all,
  stop, new_link,
}
use reink_rust.Link.Io.{
  require_active_conversation, send_transaction, send, next_packet, read_loop, apply_credit,
}
use reink_rust.Link.Services.{
  is_accepted_exit, exit_conversation, finish_close, close, open_service, socket_of, finish_open,
  same_name,
}
use reink_rust.Link.Session.{initialize, initialize_guard, transact, negotiate, transaction_loop}
use reink_rust.Link.Script.{scripted, scripted-ReadsBytes}
use reink_rust.Controller.Device.{test_spec}
use reink_rust.App.Connect.{
  returned, after_close, shutdown, connect_out_of_fuel, connect_panicked, Connected, session,
  refused, EpsonD4Session, connect_recoverable, commanded, entered, initialized, service_opened,
  wait_for_entry_reply, entry_loop, epson_ctrl,
}
use reink_rust.App.Setup.{shutdown-IsEnded, IsReady, connect_recoverable-IsReady}

-- The entry reply in two reads, and the replies to Init, GetSocketId, OpenChannel, CloseChannel and Exit.
abbrev printer : List (List ℕ)
printer =
    (0 ∷ 0 ∷ 0 ∷ 8 ∷ [])
    ∷ (1 ∷ 0 ∷ 0xc5 ∷ 0 ∷ [])
    ∷ (0 ∷ 0 ∷ 0 ∷ 9 ∷ 1 ∷ 0 ∷ 0x80 ∷ 0 ∷ 0x20 ∷ [])
    ∷ (0 ∷ 0 ∷ 0 ∷ 19 ∷ 1 ∷ 0 ∷ 0x89 ∷ 0 ∷ 2 ∷ epson_ctrl)
    ∷ (0 ∷ 0 ∷ 0 ∷ 18 ∷ 1 ∷ 0 ∷ 0x81 ∷ 0 ∷ 2 ∷ 2 ∷ 1 ∷ 0 ∷ 1 ∷ 0 ∷ 0 ∷ 1 ∷ 0 ∷ 1 ∷ [])
    ∷ (0 ∷ 0 ∷ 0 ∷ 10 ∷ 1 ∷ 0 ∷ 0x82 ∷ 0 ∷ 2 ∷ 2 ∷ [])
    ∷ (0 ∷ 0 ∷ 0 ∷ 8 ∷ 1 ∷ 0 ∷ 0x88 ∷ 0 ∷ [])
    ∷ []

abbrev reads_of : ℕ → List (List ℕ) → List (List ℕ)
reads_of zero chunks = []
reads_of (suc n) [] = [] ∷ reads_of n []
reads_of (suc n) (chunk ∷ chunks) = chunk ∷ reads_of n chunks

abbrev session_of : Connected scripted → EpsonD4Session scripted
session_of (session s) = s
session_of _ = record { link = new_link []; control_channel = transaction_id; spec = test_spec }

abbrev connected : EpsonD4Session scripted
connected = session_of (connect_recoverable scripted 8 printer test_spec)

abbrev is_session : Connected scripted → Bool
is_session (session s) = true
is_session _ = false

session_of_session : (c : Connected scripted) → is_session c ≡ true → c ≡ session (session_of c)
session_of_session (session s) h = refl
session_of_session (refused e t) h = absurd (ground arith)
session_of_session connect_panicked h = absurd (ground arith)
session_of_session connect_out_of_fuel h = absurd (ground arith)

connects : is_session (connect_recoverable scripted 8 printer test_spec) ≡ true
unfolding connect_recoverable commanded entered initialized service_opened wait_for_entry_reply
    entry_loop contains find starts_with initialize initialize_guard transact transaction_loop
    send_transaction send next_packet read_loop apply_credit negotiate push take_packet drained
    decode_header encode decode decode_body decode_init_reply from_byte encode_fields new_packet
    new_header encode_header ◌>>=◌ pure fail gets modify guard lift known expect_channel write_all
    new_link stop require_active_conversation open_service socket_of finish_open same_name
    decode_get_socket_id_reply decode_open_channel_reply ascii ascii_from is_ascii is_name
connects = refl

connect_recoverable-IsReady_example : IsReady test_spec connected
connect_recoverable-IsReady_example =
    connect_recoverable-IsReady scripted-ReadsBytes 8 test_spec printer connected
      (session_of_session (connect_recoverable scripted 8 printer test_spec) connects)

shuts_down : (shutdown 8 connected).0 ≡ returned (Result.ok tt)
unfolding connect_recoverable commanded entered initialized service_opened wait_for_entry_reply
    entry_loop contains find starts_with initialize initialize_guard transact transaction_loop
    send_transaction send next_packet read_loop apply_credit negotiate push take_packet drained
    decode_header encode decode decode_body decode_init_reply from_byte encode_fields new_packet
    new_header encode_header ◌>>=◌ pure fail gets modify guard lift known expect_channel write_all
    new_link stop require_active_conversation open_service socket_of finish_open same_name
    decode_get_socket_id_reply decode_open_channel_reply ascii ascii_from is_ascii is_name shutdown
    after_close close finish_close exit_conversation is_accepted_exit terminate_conversation
    decode_close_channel_reply decode_exit_reply
shuts_down = refl

shutdown-IsEnded_example : IsEnded (shutdown 8 connected).1
shutdown-IsEnded_example =
    shutdown-IsEnded scripted-ReadsBytes 8 connected connect_recoverable-IsReady_example.link
      shuts_down

wait_for_entry_reply-verdict_example :
    (wait_for_entry_reply scripted printer).0 ≡ verdict scripted (joined (reads_of 5 printer))
unfolding read_all
wait_for_entry_reply-verdict_example =
    wait_for_entry_reply-verdict scripted printer (reads_of 5 printer) refl

abbrev usb_printer : UsbTransport
usb_printer = record {
  transport = scripted;
  open_selected = Result.ok printer;
  close = λ script. (Result.ok tt, script);
}

-- An operation that tells where the memory of the model begins.
abbrev low_address :
    EpsonD4Session (recorded usb_printer) → Result String ℕ × EpsonD4Session (recorded usb_printer)
low_address s = (Result.ok s.spec.memory_low, s)

low_address_keeps :
    (s : EpsonD4Session (recorded usb_printer)) → IsLink s.link → IsLink (low_address s).1.link
low_address_keeps s v = v

with_selected_usb_epson_session-CleanedUp_example :
    CleanedUp usb_printer ℕ 8 test_spec low_address true
      (Result.ok printer)
      (with_selected_usb_epson_session usb_printer ℕ 8 low_address test_spec true)
with_selected_usb_epson_session-CleanedUp_example =
    with_selected_usb_epson_session-CleanedUp usb_printer ℕ 8 test_spec low_address true
      scripted-ReadsBytes low_address_keeps
