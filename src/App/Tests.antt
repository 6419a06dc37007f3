-- ===== src/App/Tests.antt =====
-- A planned write, a restore and a reset over the printer with a memory.
use reink_rust.Command.Reply.{parse_eeprom_read_reply}
use reink_rust.Command.Write.{encode_eeprom_read}
use reink_rust.Controller.Ops.{read_eeprom_address}
use reink_rust.App.Updates.{
  Restores, restore_eeprom_updates-Restores, validate_eeprom_updates-ok, AllDistinct, InRange,
}
use reink_rust.App.Backup.{dump_eeprom-IsBackup, IsBackup, Truthful}
use reink_rust.App.Apply.{prepared_write-Applied, Applied}
use reink_rust.App.Plan.{restore_eeprom_updates, EepromWritePlan, validate_eeprom_updates}
use reink_rust.Controller.Defs.{Outcome, Updates}
use reink_rust.Base.{Result, [], arith, ok, refl, ◌↔◌, ◌∷◌, ◌≡◌, ◌≢◌, ℕ}
use reink_rust.Controller.Device.{device, test_spec, printer, cell}
use reink_rust.App.Memory.{
  read_eeprom, dump_loop, apply_eeprom_write, dump_eeprom, prepare_eeprom_write, ControlLink,
}

abbrev linked : ControlLink
linked = record { channel = device; control_channel = λ m. Result.ok tt }

abbrev ramp : ℕ → ℕ
ramp a = a

abbrev two_updates : Updates
two_updates = (13, 7) ∷ (12, 9) ∷ []

abbrev plan : EepromWritePlan
plan = record {
  backup = record { model = test_spec.model; start_address = 12; bytes = 12 ∷ 13 ∷ 14 ∷ [] };
  updates = two_updates;
}

prepares : (prepare_eeprom_write linked test_spec two_updates ramp).0 ≡ Outcome.ok plan
unfolding prepare_eeprom_write dump_eeprom dump_loop read_eeprom read_eeprom_address
    encode_eeprom_read parse_eeprom_read_reply
prepares = refl

prepared_write-Applied_example :
    Applied linked test_spec printer two_updates
      (cell ramp)
      (apply_eeprom_write linked test_spec plan
        (prepare_eeprom_write linked test_spec two_updates ramp).1).0
      (apply_eeprom_write linked test_spec plan
        (prepare_eeprom_write linked test_spec two_updates ramp).1).1
prepared_write-Applied_example =
    prepared_write-Applied linked test_spec printer two_updates ramp plan prepares

dump_eeprom-IsBackup_example :
    Truthful cell
      (IsBackup linked test_spec printer)
      (cell ramp)
      (dump_eeprom linked test_spec ramp)
dump_eeprom-IsBackup_example = dump_eeprom-IsBackup linked test_spec printer ramp

restore_eeprom_updates-Restores_example :
    Restores test_spec (1 ∷ 2 ∷ 3 ∷ []) (restore_eeprom_updates test_spec (1 ∷ 2 ∷ 3 ∷ []))
restore_eeprom_updates-Restores_example =
    restore_eeprom_updates-Restores test_spec (1 ∷ 2 ∷ 3 ∷ []) (ground arith) (ground arith)

validate_eeprom_updates-ok_example :
    (validate_eeprom_updates test_spec two_updates ≡ ok tt)
    ↔ ((two_updates ≢ []) × InRange test_spec two_updates × AllDistinct two_updates)
validate_eeprom_updates-ok_example = validate_eeprom_updates-ok test_spec two_updates
