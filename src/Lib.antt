-- ===== src/Lib.antt =====
-- The core of reink, a tool that reads and resets the counters of Epson printers. A session of the
-- application enters the protocol over a byte transport; a request goes from `EpsonController` through
-- a control channel to a `D4Link`, which frames it in IEEE 1284.4 packets; a reply comes back the same
-- way. SNMP is another control channel. The printer's model, which says where its counters lie, comes
-- from a database that is loaded from TOML and is found by the printer's identity.
--
-- Packet models crates/reink-d4/src/packet.rs: headers, packets and the incremental `PacketDecoder`.
-- Transaction models crates/reink-d4/src/transaction.rs: the messages of the transaction channel,
-- `TransactionMessage::encode` and `decode`, and the service names they check. `ProtocolRevision`,
-- which link.rs declares, stands with them.
-- Platform models crates/reink-platform/src/: `ByteTransport` and `ControlChannel` are records of a
-- state and its operations, so that a transport or a channel is a parameter of whatever uses one;
-- `RecordingTransport` is a transport over a transport.
-- Link models crates/reink-d4/src/link.rs: `D4Link` is a record, a method is a function in a state
-- monad whose outcome is a value, an error, a panic, or a loop cut off by its fuel. Io sends and
-- takes in packets, Peer answers the commands of the peer, Session has `transaction` and
-- `initialize`, Services has the methods that open, use and close service channels, Control the
-- channel that is handed out.
-- Identity models crates/reink-core/src/identity.rs: identifiers are parsed to fields with aliases.
-- Epson models crates/reink-core/src/epson.rs: Spec is the specification and its merged resets, Raw
-- and Load are the records of the TOML asset and `from_toml`, over a parser that is a parameter, with
-- `get` and `resolve_identity`.
-- Command models crates/reink-core/src/command.rs and Controller crates/reink-core/src/controller.rs,
-- over any control channel: reads, verified and atomic writes, resets, and `read_identity`.
-- Snmp models crates/reink-snmp/src/lib.rs: the configuration, its loading from an environment that is
-- a parameter, and the channel over a session of snmp2, which is the record `SyncSession`.
-- Usb models crates/reink-usb/src/: the choices of a printer interface, a device and a native candidate,
-- the parsing of hardware identifiers, the redaction of serial numbers, and, in Handoff, the claim and the
-- close of an interface that the kernel's driver holds, over a handle of rusb that is a parameter.
-- App models crates/reink-app/src/lib.rs: Plan and Memory have the write plans, restores and EEPROM
-- methods of a session over a link that hands out a control channel; Connect sets a session up over a
-- transport and shuts it down, and Selected runs an operation on a selected USB device, whose transport
-- is the parameter `UsbTransport`, and cleans up.
-- Base holds lists, results, Boolean tests, bytes, UTF-8 text, splits, dictionaries and digits.
--
-- A `u8` or `u16` is a number, with its range as a hypothesis where a theorem needs it; the
-- wrap-around of unchecked arithmetic is written out. Text is the list of its UTF-8 bytes. A map that is
-- never listed is a function, any other an association list.
-- The loop of `PacketDecoder::push` has a round more than the buffer has bytes as fuel: every round but the
-- last takes six bytes at least.
-- The loop of `next_packet` has fuel for 65536 rounds of seven reads: an unfinished packet has at most
-- 65535 bytes, and seven empty reads in a row end the loop. The loops of `transaction` and of
-- `request` wait for the peer as long as it likes, so their fuel is a parameter, and so is that of the
-- methods of a session.
--
-- Not modelled: the texts of errors and descriptions; the opening of devices and the transfers of
-- the USB back ends, which are calls of rusb and of the operating system; discovery (reink-discovery); the
-- probe, the read-only view of a session and the writing of files of reink-app; the command-line,
-- terminal and graphical interfaces, the hardware test tool, and the test doubles.
pub mod Base
pub mod Packet
pub mod Transaction
pub mod Platform
pub mod Link
pub mod Identity
pub mod Epson
pub mod Command
pub mod Controller
pub mod Snmp
pub mod Usb
pub mod App
