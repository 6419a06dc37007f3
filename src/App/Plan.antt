-- ===== src/App/Plan.antt =====
-- crates/reink-app/src/lib.rs: images, write plans and the checks that stand before a write. A message
-- that the code composes is a value of `PlanError` or `ModelError`.
use reink_rust.Base.Text.{same}
use reink_rust.Base.{
  collect, ◌&&◌, Bool, List, Option, Result, [], err, false, get_elem?, if◌then◌else◌, length, ltb,
  map_err, min, none, not, ok, some, true, ◌%◌, ◌+◌, ◌-◌, ◌==◌, ◌>>=◌, ◌||◌, ◌∷◌, ℕ,
}
use reink_rust.Epson.Spec.{EpsonSpec, MemoryOperation, CounterResetTarget, counter_reset}
use reink_rust.Identity.{PrinterIdentity, detected_model}
use reink_rust.Controller.Defs.{Updates, EpsonError}
use reink_rust.Controller.Ops.{zip_updates}
use reink_rust.Platform.Transport.{TransportError}
use reink_rust.Link.State.{D4Error}

-- `FirstWriteBackupGate`
pub record FirstWriteBackupGate : Type 0 where
  pub resolved : Bool

abbrev pub requires_backup_choice : FirstWriteBackupGate → Bool
requires_backup_choice gate = not gate.resolved

abbrev pub record_backup_saved : FirstWriteBackupGate → FirstWriteBackupGate
record_backup_saved gate = record { resolved = true }

abbrev pub record_backup_declined : FirstWriteBackupGate → FirstWriteBackupGate
record_backup_declined gate = record { resolved = true }

pub record EepromImage : Type 0 where
  pub model : List ℕ
  pub start_address : ℕ
  pub bytes : List ℕ

unfoldable pub end_address : EepromImage → ℕ
end_address image = min (image.start_address + (length image.bytes - 1) % 65536) 65535

-- `address.checked_sub(start).and_then(|offset| bytes.get(offset))`
unfoldable pub value_at : EepromImage → ℕ → Option ℕ
value_at image address =
    if ltb address image.start_address
    then none
    else get_elem? image.bytes (address - image.start_address)

pub record EepromWritePlan : Type 0 where
  pub backup : EepromImage
  pub updates : Updates

pub data PlanError : Type 0 where
  update_required : PlanError
  outside_model_range : (address memory_low memory_high : ℕ) → PlanError
  duplicated : (address : ℕ) → PlanError
  backup_mismatch : PlanError
  not_in_backup : (address : ℕ) → PlanError

pub data ApplicationError : Type 0 where
  transport : TransportError → ApplicationError
  d4 : D4Error → ApplicationError
  setup_recovered : (setup : D4Error) → ApplicationError
  setup_recovery : (setup recovery : D4Error) → ApplicationError
  shutdown : (close exit : Option D4Error) → ApplicationError
  epson : EpsonError → ApplicationError
  write_plan : PlanError → ApplicationError
  entry_reply_missing : ApplicationError
  entry_reply_invalid : ApplicationError

pub data ModelError : Type 0 where
  model_mismatch : (model expected : List ℕ) → ModelError
  no_model : (expected : List ℕ) → ModelError

unfoldable pub verify_exact_model : PrinterIdentity → List ℕ → Result ModelError (Unit {0})
unfolding detected_model same
verify_exact_model identity expected = elim (detected_model identity) [
  | none ↦ err (no_model expected)
  | some model ↦ if same model expected then ok tt else err (model_mismatch model expected)
]

-- `usize::from(memory_high).saturating_sub(usize::from(memory_low)) + 1`
abbrev pub range_size : EpsonSpec → ℕ
range_size spec = spec.memory_high - spec.memory_low + 1

-- The bytes with their addresses, from this one on, in the `u16` of the source.
unfoldable pub numbered : ℕ → List ℕ → Updates
numbered address [] = []
numbered address (b ∷ bs) = (address % 65536, b) ∷ numbered (address + 1) bs

-- An error is the two sizes that the message names.
unfoldable pub restore_eeprom_updates : EpsonSpec → List ℕ → Result (ℕ × ℕ) Updates
unfolding numbered
restore_eeprom_updates spec bytes =
    if not (length bytes == range_size spec)
    then err (length bytes, range_size spec)
    else ok (numbered spec.memory_low bytes)

abbrev pub has_address : ℕ → List ℕ → Bool
has_address address [] = false
has_address address (a ∷ as') = a == address || has_address address as'

-- The loop over the updates, with the addresses that the set holds.
unfoldable pub validate_from : EpsonSpec → List ℕ → Updates → Result PlanError (Unit {0})
validate_from spec seen [] = ok tt
validate_from spec seen ((address, value) ∷ updates) =
    if ltb address spec.memory_low || ltb spec.memory_high address
    then err (outside_model_range address spec.memory_low spec.memory_high)
    else if has_address address seen
    then err (duplicated address)
    else validate_from spec (address ∷ seen) updates

unfoldable pub validate_eeprom_updates : EpsonSpec → Updates → Result PlanError (Unit {0})
unfolding validate_from
validate_eeprom_updates spec [] = err update_required
validate_eeprom_updates spec (u ∷ updates) = validate_from spec [] (u ∷ updates)

-- The first two errors have one text.
pub data ResetError : Type 0 where
  no_declared_reset : CounterResetTarget → ResetError
  invalid_updates : PlanError → ResetError

abbrev pub updates_of_operation :
    EpsonSpec → CounterResetTarget → Option MemoryOperation → Result ResetError Updates
updates_of_operation spec target none = err (no_declared_reset target)
updates_of_operation spec target (some operation) =
    if not operation.reset_values_declared
    then err (no_declared_reset target)
    else (map_err invalid_updates
          (validate_eeprom_updates spec (zip_updates operation.addresses operation.reset_values))
        >>= λ _. ok (zip_updates operation.addresses operation.reset_values))

unfoldable pub declared_counter_reset_updates :
    EpsonSpec → CounterResetTarget → Result ResetError Updates
unfolding counter_reset validate_eeprom_updates
declared_counter_reset_updates spec target =
    updates_of_operation spec target (counter_reset spec target)

-- `plan.backup.model != self.spec.model || ..`
abbrev pub backup_fits : EpsonSpec → EepromImage → Bool
backup_fits spec backup =
    same backup.model spec.model
    && backup.start_address == spec.memory_low
    && length backup.bytes == range_size spec

abbrev pub original_at : ℕ → Option ℕ → Result PlanError (ℕ × ℕ)
original_at address none = err (not_in_backup address)
original_at address (some value) = ok (address, value)

-- The backed-up value of each update's address.
unfoldable pub originals_of : EepromImage → Updates → Result PlanError Updates
unfolding collect value_at
originals_of backup = collect (λ u. original_at u.0 (value_at backup u.0))

unfoldable pub check_plan : EpsonSpec → EepromWritePlan → Result PlanError Updates
unfolding same validate_eeprom_updates originals_of
check_plan spec plan =
    if backup_fits spec plan.backup
    then (validate_eeprom_updates spec plan.updates >>= λ _. originals_of plan.backup plan.updates)
    else err backup_mismatch
