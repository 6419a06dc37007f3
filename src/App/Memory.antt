-- ===== src/App/Memory.antt =====
-- crates/reink-app/src/lib.rs: the EEPROM methods of `EpsonD4Session`, over any link that hands out a
-- control channel. A method takes the state of the channel and returns its result and the state after.
use reink_rust.Controller.Ops.{with_access}
use reink_rust.Base.{List, Result, [], some, suc, true, zero, ◌+◌, ◌-◌, ◌∷◌, ℕ}
use reink_rust.Platform.Control.{ControlChannel}
use reink_rust.Epson.Spec.{EpsonSpec}
use reink_rust.Command.{EepromReadReply}
use reink_rust.Link.State.{D4Error}
use reink_rust.Controller.Defs.{
  access, Outcome, AccessError, ◌>>◌, M, ok, err, panicked, ◌>>=◌, pure, Updates, EpsonError,
  EepromWriteOptions,
}
use reink_rust.Controller.Ops
use reink_rust.Controller.Identity
use reink_rust.Identity.{PrinterIdentity}
use reink_rust.App.Plan.{
  check_plan, write_plan, PlanError, validate_eeprom_updates, d4, ApplicationError, epson,
  EepromImage, EepromWritePlan,
}

-- `self.link.control_channel(self.control_channel)`: the channel, unless the link refuses.
pub record ControlLink : Type 1 where
  pub channel : ControlChannel
  pub control_channel : channel.Channel → Result D4Error (Unit {0})

abbrev pub verified_atomic : EepromWriteOptions
verified_atomic = record { verify_read_back = true; atomic = true }

abbrev pub plan_outcome : {A : Type 0} → Result PlanError A → Outcome ApplicationError A
plan_outcome (Result.ok a) = ok a
plan_outcome (Result.err e) = err (write_plan e)

abbrev pub lift_plan : {S A : Type 0} → Result PlanError A → M S ApplicationError A
lift_plan r s = (plan_outcome r, s)

abbrev pub raise : {E F A : Type 0} → (E → F) → Outcome E A → Outcome F A
raise f (ok a) = ok a
raise f (err e) = err (f e)
raise f panicked = panicked

abbrev pub with_epson : {S A : Type 0} → M S EpsonError A → M S ApplicationError A
with_epson m s = (raise epson (m s).0, (m s).1)

abbrev pub from_access : {S A : Type 0} → M S AccessError A → M S ApplicationError A
from_access m s = (raise (λ e. epson (access e)) (m s).0, (m s).1)

-- `pop().expect(..)`
abbrev pub expect_last : {S : Type 0} → List EepromReadReply → M S ApplicationError EepromReadReply
expect_last [] s = (panicked, s)
expect_last (r ∷ []) s = (ok r, s)
expect_last (r ∷ q ∷ rs) s = expect_last (q ∷ rs) s

module _ (L : ControlLink) (spec : EpsonSpec) where
  abbrev pub opened_outcome : Result D4Error (Unit {0}) → Outcome ApplicationError (Unit {0})
  opened_outcome (Result.ok u) = ok tt
  opened_outcome (Result.err e) = err (d4 e)

  abbrev pub opened : M L.channel.Channel ApplicationError (Unit {0})
  opened s = (opened_outcome (L.control_channel s), s)

  unfoldable pub read_identity : M L.channel.Channel ApplicationError PrinterIdentity
  unfolding Identity.read_identity
  read_identity = opened >>= λ _. with_epson (Identity.read_identity L.channel)

  unfoldable pub read_status : M L.channel.Channel ApplicationError (List ℕ)
  unfolding Ops.read_status
  read_status = opened >>= λ _. from_access (Ops.read_status L.channel spec)

  unfoldable pub read_eeprom : List ℕ → M L.channel.Channel ApplicationError (List EepromReadReply)
  unfolding Ops.read_eeprom
  read_eeprom addresses = opened >>= λ _. from_access (Ops.read_eeprom L.channel spec addresses)

  -- The loop over `start_address..=memory_high`: so many addresses, from this one on.
  unfoldable pub dump_loop : ℕ → ℕ → M L.channel.Channel ApplicationError (List ℕ)
  unfolding read_eeprom
  dump_loop zero address s = (ok [], s)
  dump_loop (suc count) address s =
      (do
        replies ← read_eeprom (address ∷ [])
        reply ← expect_last replies
        rest ← dump_loop count (address + 1)
        pure (reply.value ∷ rest))
        s

  unfoldable pub dump_eeprom : M L.channel.Channel ApplicationError EepromImage
  unfolding dump_loop
  dump_eeprom = do
    bytes ← dump_loop (spec.memory_high + 1 - spec.memory_low) spec.memory_low
    pure (record { model = spec.model; start_address = spec.memory_low; bytes = bytes })

  unfoldable pub prepare_eeprom_write :
      Updates → M L.channel.Channel ApplicationError EepromWritePlan
  unfolding validate_eeprom_updates dump_eeprom
  prepare_eeprom_write updates = do
    lift_plan (validate_eeprom_updates spec updates)
    backup ← dump_eeprom
    pure (record { backup = backup; updates = updates })

  unfoldable pub apply_eeprom_write :
      EepromWritePlan → M L.channel.Channel ApplicationError (Unit {0})
  unfolding check_plan Ops.write_eeprom_with_originals
  apply_eeprom_write plan = do
    originals ← lift_plan (check_plan spec plan)
    opened
    with_epson (
        Ops.write_eeprom_with_originals L.channel spec plan.updates (some originals)
          verified_atomic)
