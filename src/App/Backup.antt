-- ===== src/App/Backup.antt =====
-- crates/reink-app/src/lib.rs: what `dump_eeprom` reads from a printer that keeps its memory.
use reink_rust.Link.State.{D4Error}
use reink_rust.Base.Text.{same}
use reink_rust.Command.{EepromReadReply}
use reink_rust.Base.{
  Bool-cases, if◌then◌else◌, leb, ltb, none, ◌&&◌, ◌-◌, ◌≤◌, Result, ap, arith, sym, subst, ◌∙◌,
  List, [], get_elem?, inl, inr, length, some, suc, zero, ◌+◌, ◌<◌, ◌∷◌, refl, ◌≡◌, ℕ,
}
use mathlib.Core.Path.{fun_ext}
use reink_rust.Epson.Spec.{EpsonSpec}
use reink_rust.Controller.Defs.{
  access, pure, AccessError, Outcome, ok, err, panicked, ◌>>=◌, continue, M,
}
use reink_rust.Controller.Memory.{Printer, read_true}
use reink_rust.Controller.Atomic.{read_eeprom-memory}
use reink_rust.Controller.Ops
use reink_rust.App.Plan.{EepromImage, epson, value_at}
use reink_rust.App.Memory.{
  opened_outcome, expect_last, opened, raise, ControlLink, dump_eeprom, dump_loop, read_eeprom,
}

-- A method leaves the memory as it is, and what it returns is true of the memory.
module _ {S E : Type 0} (memory : S → ℕ → ℕ) where
  abbrev pub Truthful : {A : Type 0} → ((ℕ → ℕ) → A → Type 0) → (ℕ → ℕ) → Outcome E A × S → Type 0
  Truthful {A} Q before (o, after) = (memory after ≡ before) × ((a : A) → o ≡ ok a → Q before a)

  continue-Truthful :
      {A B : Type 0} (Q : (ℕ → ℕ) → A → Type 0) (R : (ℕ → ℕ) → B → Type 0) (before : ℕ → ℕ)
      (o : Outcome E A) (s : S) (f : A → M S E B)
      → Truthful Q before (o, s)
      → ((a : A) → Q before a → Truthful R before (f a s))
      → Truthful R before (continue o f s)
  continue-Truthful Q R before (ok a) s f h k = k a (h.1 a refl)
  continue-Truthful Q R before (err e) s f h k = (h.0, λ a eq. cc eq)
  continue-Truthful Q R before panicked s f h k = (h.0, λ a eq. cc eq)

  pub bind-Truthful :
      {A B : Type 0} (Q : (ℕ → ℕ) → A → Type 0) (R : (ℕ → ℕ) → B → Type 0) (before : ℕ → ℕ)
      (m : M S E A) (f : A → M S E B) (s : S)
      → Truthful Q before (m s)
      → ((a : A) (s' : S) → memory s' ≡ before → Q before a → Truthful R before (f a s'))
      → Truthful R before ((m >>= f) s)
  bind-Truthful Q R before m f s h k =
      continue-Truthful Q R before (m s).0 (m s).1 f h (λ a q. k a (m s).1 h.0 q)

module _ (L : ControlLink) (spec : EpsonSpec) (P : Printer L.channel spec) where
  open P use {memory}

  -- The reply to a request for one address tells what is there.
  OneReply : ℕ → (ℕ → ℕ) → List EepromReadReply → Type 0
  OneReply address before replies =
      (reply : EepromReadReply) × (replies ≡ reply ∷ []) × (reply.value ≡ before address)

  one_reply :
      (o : Outcome AccessError EepromReadReply) (s : L.channel.Channel)
      (replies : List EepromReadReply)
      → (continue o
          (λ reply. Ops.read_eeprom L.channel spec [] >>= λ rest. pure (reply ∷ rest))
          s).0
        ≡ ok replies
      → (reply : EepromReadReply) × (o ≡ ok reply) × (replies ≡ reply ∷ [])
  unfolding Ops.read_eeprom
  one_reply (ok reply) s replies eq = (reply, refl, cc eq)
  one_reply (err e) s replies eq = cc eq
  one_reply panicked s replies eq = cc eq

  read_one :
      (address : ℕ) (s : L.channel.Channel) (replies : List EepromReadReply)
      → (Ops.read_eeprom L.channel spec (address ∷ []) s).0 ≡ ok replies
      → OneReply address (memory s) replies
  unfolding Ops.read_eeprom OneReply
  read_one address s replies eq =
      let (reply, read, alone) =
        one_reply (Ops.read_eeprom_address L.channel spec address s).0
          (Ops.read_eeprom_address L.channel spec address s).1 replies eq in
      (reply, alone, (read_true L.channel spec P address s reply read).1)

  raise-Truthful :
      {E F A : Type 0} (g : E → F) (Q : (ℕ → ℕ) → A → Type 0) (before : ℕ → ℕ) (o : Outcome E A)
      (s : L.channel.Channel)
      → Truthful memory Q before (o, s)
      → Truthful memory Q before (raise g o, s)
  raise-Truthful g Q before (ok a) s h = (h.0, λ b eq. h.1 b (cc eq))
  raise-Truthful g Q before (err e) s h = (h.0, λ b eq. cc eq)
  raise-Truthful g Q before panicked s h = (h.0, λ b eq. cc eq)

  abbrev Anything : {A : Type 0} → (ℕ → ℕ) → A → Type 0
  Anything before a = Unit

  opened_outcome-Truthful :
      (s : L.channel.Channel) (r : Result D4Error (Unit {0}))
      → Truthful memory Anything (memory s) (opened_outcome L spec r, s)
  opened_outcome-Truthful s (Result.ok u) = (refl, λ _ _. tt)
  opened_outcome-Truthful s (Result.err e) = (refl, λ _ _. tt)

  opened-Truthful : (s : L.channel.Channel) → Truthful memory Anything (memory s) (opened L spec s)
  opened-Truthful s = opened_outcome-Truthful s (L.control_channel s)

  read_eeprom-Truthful :
      (address : ℕ) (s : L.channel.Channel)
      → Truthful memory (OneReply address) (memory s) (read_eeprom L spec (address ∷ []) s)
  unfolding read_eeprom
  read_eeprom-Truthful address s =
      bind-Truthful memory Anything (OneReply address) (memory s) (opened L spec) _ s
        (opened-Truthful s)
        (λ u s' same _.
          raise-Truthful (λ e. epson (access e)) (OneReply address) (memory s)
            (Ops.read_eeprom L.channel spec (address ∷ []) s').0
            (Ops.read_eeprom L.channel spec (address ∷ []) s').1
            (
              fun_ext (read_eeprom-memory L.channel spec P (address ∷ []) s') ∙ same,
              λ replies eq.
                  subst (λ before. OneReply address before replies) same
                    (read_one address s' replies eq),
            ))

  -- The bytes are those of the memory, from this address on.
  abbrev Copies : ℕ → ℕ → (ℕ → ℕ) → List ℕ → Type 0
  Copies count address before bytes =
      (length bytes ≡ count)
      × ((i : ℕ) → i < count → get_elem? bytes i ≡ some (before (address + i)))

  pub ok_eq : {E A : Type 0} {a b : A} → ◌≡◌ {A = Outcome E A} (ok a) (ok b) → a ≡ b
  ok_eq h = cc h

  Copies-cons :
      (count address : ℕ) (before : ℕ → ℕ) (value : ℕ) (rest : List ℕ)
      → value ≡ before address
      → Copies count (address + 1) before rest
      → Copies (suc count) address before (value ∷ rest)
  Copies-cons count address before value rest is_value (size, copies) = (
    omega (arith, size),
    λ i h.
        elim i as (λ j. j < suc count → get_elem? (value ∷ rest) j ≡ some (before (address + j))) [
          | zero ↦ λ _. ap some (is_value ∙ ap before (omega arith))
          | suc j ↦ λ k. copies j (omega (arith, k)) ∙ ap (λ a. some (before a)) (omega arith)
        ]
          h,
  )

  expect_last-Truthful :
      (address : ℕ) (before : ℕ → ℕ) (replies : List EepromReadReply) (s : L.channel.Channel)
      → memory s ≡ before
      → OneReply address before replies
      → Truthful memory (λ m reply. reply.value ≡ m address) before (expect_last replies s)
  unfolding OneReply
  expect_last-Truthful address before replies s same (reply, alone, value) =
      subst (λ rs. Truthful memory (λ m r. r.value ≡ m address) before (expect_last rs s))
        (sym alone) (same, λ r eq. subst (λ q. q.value ≡ before address) (ok_eq eq) value)

  dump_loop-Truthful :
      (count address : ℕ) (s : L.channel.Channel)
      → Truthful memory (Copies count address) (memory s) (dump_loop L spec count address s)
  unfolding dump_loop
  dump_loop-Truthful zero address s = (
    refl,
    λ bytes eq.
        subst (Copies 0 address (memory s)) (ok_eq eq) (refl, λ i h. absurd (omega (arith, h))),
  )
  dump_loop-Truthful (suc count) address s =
      bind-Truthful memory (OneReply address) (Copies (suc count) address) (memory s)
        (read_eeprom L spec (address ∷ [])) _ s (read_eeprom-Truthful address s)
        (λ replies s' same one.
          bind-Truthful memory (λ before reply. reply.value ≡ before address)
            (Copies (suc count) address) (memory s) (expect_last replies) _ s'
            (expect_last-Truthful address (memory s) replies s' same one)
            (λ reply s'' same' value.
              bind-Truthful memory (Copies count (address + 1)) (Copies (suc count) address)
                (memory s) (dump_loop L spec count (address + 1)) _ s''
                (subst
                  (λ before.
                    Truthful memory (Copies count (address + 1)) before
                      (dump_loop L spec count (address + 1) s''))
                  same' (dump_loop-Truthful count (address + 1) s''))
                (λ rest s3 same3 copies. (
                  same3,
                  λ bytes eq.
                      subst (Copies (suc count) address (memory s)) (ok_eq eq)
                        (Copies-cons count address (memory s) reply.value rest value copies),
                ))))

  -- An image of the whole range of the model, and nothing outside it.
  abbrev pub IsBackup : (ℕ → ℕ) → EepromImage → Type 0
  IsBackup before image =
      (image.model ≡ spec.model)
      × (image.start_address ≡ spec.memory_low)
      × (length image.bytes ≡ spec.memory_high + 1 - spec.memory_low)
      × ((a : ℕ)
          → value_at image a
            ≡ (if leb spec.memory_low a && leb a spec.memory_high then some (before a) else none))

  image_of : List ℕ → EepromImage
  image_of bytes = record { model = spec.model; start_address = spec.memory_low; bytes = bytes }

  get_elem?-none : (bytes : List ℕ) (i : ℕ) → length bytes ≤ i → get_elem? bytes i ≡ none
  get_elem?-none [] i h = refl
  get_elem?-none (b ∷ bs) zero h = absurd (omega (arith, h))
  get_elem?-none (b ∷ bs) (suc i) h = get_elem?-none bs i (omega (arith, h))

  value_at-image_of :
      (before : ℕ → ℕ) (bytes : List ℕ)
      → Copies (spec.memory_high + 1 - spec.memory_low) spec.memory_low before bytes
      → (a : ℕ)
      → value_at (image_of bytes) a
        ≡ (if leb spec.memory_low a && leb a spec.memory_high then some (before a) else none)
  unfolding value_at image_of
  value_at-image_of before bytes (size, copies) a = elim (Bool-cases (ltb a spec.memory_low)) [
    | inl below ↦ ground (arith, below)
    | inr above ↦ elim (Bool-cases (leb a spec.memory_high)) [
      | inl inside ↦
          let back : spec.memory_low + (a - spec.memory_low) ≡ a = ground arith in
          ground (arith, above, inside, copies (a - spec.memory_low) (ground arith), ap before back)
      | inr outside ↦ ground (arith, above, outside, get_elem?-none bytes (a - spec.memory_low))
    ]
  ]

  -- Reading the whole EEPROM leaves the printer's memory as it is, and an image that it returns has at
  -- each address of the model's range what the memory holds there, and no value at any other.
  pub dump_eeprom-IsBackup :
      (s : L.channel.Channel) → Truthful memory IsBackup (memory s) (dump_eeprom L spec s)
  unfolding dump_eeprom image_of
  dump_eeprom-IsBackup s =
      bind-Truthful memory (Copies (spec.memory_high + 1 - spec.memory_low) spec.memory_low)
        IsBackup (memory s)
        (dump_loop L spec (spec.memory_high + 1 - spec.memory_low) spec.memory_low) _ s
        (dump_loop-Truthful (spec.memory_high + 1 - spec.memory_low) spec.memory_low s)
        (λ bytes s' same copies. (
          same,
          λ image eq.
              subst (IsBackup (memory s)) (ok_eq eq)
                (refl, refl, copies.0, value_at-image_of (memory s) bytes copies),
        ))
