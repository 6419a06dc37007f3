-- ===== src/Controller/Device.antt =====
-- A printer with a memory that serves reads and writes: an instance of `Printer`.
use reink_rust.Base.{
  ==_iff, All, Bool-cases, ap, inl, inr, sym, true, ◌∙◌, ◌≢◌, List, Result, [], arith,
  if◌then◌else◌, none, ok, refl, some, ◌%◌, ◌*◌, ◌++◌, ◌+◌, ◌/◌, ◌==◌, ◌∷◌, ◌≡◌, ℕ,
}
use reink_rust.Platform.Control.{ControlChannel, ControlError}
use reink_rust.Epson.Spec.{MemoryOperation, waste, description_fragment, EpsonSpec, two}
use reink_rust.Command.{
  EepromReadReply, Parsed, encode_eeprom_read, encode_eeprom_write, parse_eeprom_read_reply,
  encode_command, encode_factory_command, encode_address,
}
use reink_rust.Command.Reply.{marker}
use reink_rust.Command.RoundTrip.{IsLead, record_of, parse_eeprom_read_reply-record_of}
use reink_rust.Controller.Memory.{Printer}

abbrev pub waste_counter : MemoryOperation
waste_counter = record {
  description = description_fragment waste;
  addresses = 12 ∷ 13 ∷ [];
  reset_values = 0 ∷ 94 ∷ [];
  reset_values_declared = true;
  minimum = none;
}

abbrev pub test_spec : EpsonSpec
test_spec = record {
  model = b'X' ∷ b'P' ∷ [];
  brand = b'E' ∷ [];
  vendor_id = 1208;
  product_id = none;
  read_key = 0x1234;
  write_key = some (1 ∷ 2 ∷ 3 ∷ 4 ∷ 5 ∷ 6 ∷ 7 ∷ 8 ∷ []);
  shifted_write_key = none;
  read_address_width = two;
  write_address_width = two;
  memory_low = 12;
  memory_high = 14;
  memory_operations = waste_counter ∷ [];
  read_only_fields = [];
}

-- "@BDC PS "
abbrev lead : List ℕ
lead = b'@' ∷ b'B' ∷ b'D' ∷ b'C' ∷ 32 ∷ b'P' ∷ b'S' ∷ 32 ∷ []

abbrev Memory : Type 0
Memory = ℕ → ℕ

abbrev pub cell : Memory → ℕ → ℕ
cell m a = m a % 256

abbrev store : Memory → ℕ → ℕ → Memory
store m a v = λ b. if b == a then v else m b

abbrev read_reply : Memory → ℕ → ℕ → List ℕ
read_reply m lo hi =
    lead
    ++ (marker ++ record_of (hi % 256) (lo % 256) (cell m ((hi % 256) * 256 + lo % 256)) (12 ∷ []))

-- ":OK;"
abbrev ok_reply : List ℕ
ok_reply = b':' ∷ b'O' ∷ b'K' ∷ b';' ∷ []

abbrev serve : Memory → List ℕ → Result ControlError (List ℕ) × Memory
serve m (a ∷ b ∷ c ∷ d ∷ e ∷ f ∷ _ ∷ g ∷ h ∷ lo ∷ hi ∷ []) = (ok (read_reply m lo hi), m)
serve m (a ∷ b ∷ c ∷ d ∷ e ∷ f ∷ _ ∷ g ∷ h ∷ lo ∷ hi ∷ v ∷ key) =
    (ok ok_reply, store m (hi * 256 + lo) v)
serve m _ = (ok [], m)

abbrev pub device : ControlChannel
device = record { Channel = Memory; request = serve }

abbrev read_bytes : ℕ → List ℕ
read_bytes a = b'|' ∷ b'|' ∷ 7 ∷ 0 ∷ 0x34 ∷ 0x12 ∷ 0x41 ∷ 0xbe ∷ 0xa0 ∷ a % 256 ∷ a / 256 ∷ []

encode_read : (a : ℕ) → encode_eeprom_read test_spec a ≡ ok (read_bytes a)
unfolding encode_eeprom_read encode_address encode_factory_command encode_command
encode_read a = refl

abbrev write_bytes : ℕ → ℕ → List ℕ
write_bytes a v =
    b'|'
    ∷ b'|'
    ∷ 16
    ∷ 0
    ∷ 0x34
    ∷ 0x12
    ∷ 0x42
    ∷ 0xbd
    ∷ 0x21
    ∷ a % 256
    ∷ a / 256
    ∷ v
    ∷ 1
    ∷ 2
    ∷ 3
    ∷ 4
    ∷ 5
    ∷ 6
    ∷ 7
    ∷ 8
    ∷ []

encode_write : (a v : ℕ) → encode_eeprom_write test_spec a v ≡ ok (write_bytes a v)
unfolding encode_eeprom_write encode_address encode_factory_command encode_command
encode_write a v = refl

pub read_sent :
    (a : ℕ) (bytes : List ℕ) → encode_eeprom_read test_spec a ≡ ok bytes → read_bytes a ≡ bytes
read_sent a bytes e = cc (encode_read a)

pub write_sent :
    (a v : ℕ) (bytes : List ℕ)
    → encode_eeprom_write test_spec a v ≡ ok bytes
    → write_bytes a v ≡ bytes
write_sent a v bytes e = cc (encode_write a v)

plain_lead : All IsLead lead
plain_lead = ground arith

parse_served :
    (m : Memory) (lo hi : ℕ)
    → parse_eeprom_read_reply (read_reply m lo hi) two
      ≡ Parsed.ok (record {
        address = (hi % 256) * 256 + lo % 256;
        value = cell m ((hi % 256) * 256 + lo % 256);
      })
parse_served m lo hi =
    parse_eeprom_read_reply-record_of lead (12 ∷ []) (hi % 256) (lo % 256) _ two plain_lead
      (omega arith, tt) (omega arith) (omega arith) (omega arith)

pub kept :
    (m : Memory) (a v b : ℕ) → b ≢ a → cell (store m (a / 256 * 256 + a % 256) v) b ≡ cell m b
kept m a v b n = elim (Bool-cases (b == (a / 256 * 256 + a % 256))) [
  | inl e ↦ let same = (==_iff b (a / 256 * 256 + a % 256)).0 e in absurd (n (omega arith))
  | inr e ↦ rw e refl
]

parsed_eq : {a b : EepromReadReply} → Parsed.ok a ≡ Parsed.ok b → a ≡ b
parsed_eq h = cc

pub told :
    (m : Memory) (a : ℕ) (response : List ℕ) (reply : EepromReadReply)
    → (serve m (read_bytes a)).0 ≡ ok response
    → parse_eeprom_read_reply response two ≡ Parsed.ok reply
    → reply.address ≡ a
    → reply.value ≡ cell m a
told m a response reply r p h =
    let sent : read_reply m (a % 256) (a / 256) ≡ response = cc in
    let same = parsed_eq (
      sym p
      ∙ ap (λ bytes. parse_eeprom_read_reply bytes two) (sym sent)
      ∙ parse_served m (a % 256) (a / 256)) in
    ap (λ q. q.value) same ∙ ap (cell m) (sym (ap (λ q. q.address) same) ∙ h)

abbrev pub printer : Printer device test_spec
printer = record {
  memory = cell;
  read_keeps = λ s a bytes e b. rw (← read_sent a bytes e) refl;
  read_tells = λ s a bytes response reply e r p h.
      told s a response reply (ap (λ b. (serve s b).0) (read_sent a bytes e) ∙ r) p h;
  write_keeps = λ s a v bytes e b n. rw (← write_sent a v bytes e) (kept s a v b n);
}
