-- ===== src/App/Apply.antt =====
-- crates/reink-app/src/lib.rs: a planned write over a printer that may refuse, drop or distort any write.
use reink_rust.App.Backup.{ok_eq, dump_eeprom-IsBackup, bind-Truthful, Truthful, IsBackup}
use reink_rust.Base.Text.{same}
use mathlib.Core.Option.{none-ne-some, some-injective}
use reink_rust.Link.State.{D4Error}
use reink_rust.Base.{
  leb, ◌&&◌, ◌∙◌, Bool-cases, Option, accept-ok, ap, arith, bind-ok, collect, err-ne-ok, inl, inr,
  none, ok-injective, subst, sym, ◌==◌, Result, [], refl, some, ◌∷◌, ◌≡◌, ℕ,
}
use reink_rust.Epson.Spec.{EpsonSpec}
use reink_rust.Controller.Defs.{
  pure, find_original, EpsonError, Outcome, ok, err, panicked, ◌>>=◌, continue, M, Updates,
}
use reink_rust.Controller.Memory.{Printer}
use reink_rust.Controller.Atomic.{with_originals-AllOrNothing, AllOrNothing}
use reink_rust.Controller.Ops
use reink_rust.App.Plan.{
  validate_eeprom_updates, backup_fits, original_at, check_plan, PlanError, EepromImage, epson,
  originals_of, EepromWritePlan, ApplicationError, value_at,
}
use reink_rust.App.Memory.{
  dump_eeprom, prepare_eeprom_write, opened, plan_outcome, apply_eeprom_write, verified_atomic,
  with_epson, opened_outcome, raise, ControlLink,
}

module _ (L : ControlLink) (spec : EpsonSpec) (P : Printer L.channel spec) where
  open P use {memory}

  -- How a planned write can end: as the atomic write of the controller does, or, if it is refused before,
  -- with the memory as it was.
  abbrev pub Applied :
      Updates → (ℕ → ℕ) → Outcome ApplicationError (Unit {0}) → L.channel.Channel → Type 0
  Applied updates before (ok u) after = AllOrNothing L.channel spec P updates before (ok u) after
  Applied updates before (err (epson e)) after =
      AllOrNothing L.channel spec P updates before (err e) after
  Applied updates before (err e) after = memory after ≡ before
  Applied updates before panicked after =
      AllOrNothing L.channel spec P updates before panicked after

  original_at-ok :
      (address : ℕ) (value : Option ℕ) (u : ℕ × ℕ)
      → original_at address value ≡ Result.ok u
      → (u.0 ≡ address) × (value ≡ some u.1)
  original_at-ok address none u eq = absurd (err-ne-ok eq)
  original_at-ok address (some v) u eq =
      (ap (λ p. p.0) (sym (ok-injective eq)), ap (λ p. some p.1) (ok-injective eq))

  originals_of-tells :
      (backup : EepromImage) (updates originals : Updates) (b v : ℕ)
      → originals_of backup updates ≡ Result.ok originals
      → find_original originals b ≡ some v
      → value_at backup b ≡ some v
  unfolding originals_of find_original collect
  originals_of-tells backup [] originals b v eq found =
      absurd
        (none-ne-some v (subst (λ o. find_original o b ≡ some v) (sym (ok-injective eq)) found))
  originals_of-tells backup ((a, w) ∷ updates) originals b v eq found =
      let (u, at, eq1) = bind-ok (original_at a (value_at backup a)) _ originals eq in
      let (us, rest, done) = bind-ok (originals_of backup updates) _ originals eq1 in
      let here : find_original (u ∷ us) b ≡ some v =
        subst (λ o. find_original o b ≡ some v) (sym (ok-injective done)) found in
      elim (Bool-cases (u.0 == b)) [
        | inl yes_b ↦ ground (arith, here, yes_b, original_at-ok a (value_at backup a) u at)
        | inr no_b ↦ originals_of-tells backup updates us b v rest (ground (arith, here, no_b))
      ]

  raise-Applied :
      (updates : Updates) (before : ℕ → ℕ) (o : Outcome EpsonError (Unit {0}))
      (after : L.channel.Channel)
      → AllOrNothing L.channel spec P updates before o after
      → Applied updates before (raise epson o) after
  raise-Applied updates before (ok u) after h = h
  raise-Applied updates before (err e) after h = h
  raise-Applied updates before panicked after h = h

  abbrev write_planned : EepromWritePlan → Updates → M L.channel.Channel ApplicationError (Unit {0})
  write_planned plan originals =
      with_epson (
        Ops.write_eeprom_with_originals L.channel spec plan.updates (some originals)
          verified_atomic)

  opened-Applied :
      (plan : EepromWritePlan) (s : L.channel.Channel) (originals : Updates)
      (r : Result D4Error (Unit {0}))
      → ((b v : ℕ) → find_original originals b ≡ some v → memory s b ≡ v)
      → Applied plan.updates
          (memory s)
          (continue (opened_outcome L spec r) (λ _. write_planned plan originals) s).0
          (continue (opened_outcome L spec r) (λ _. write_planned plan originals) s).1
  opened-Applied plan s originals (Result.err e) tells = refl
  opened-Applied plan s originals (Result.ok u) tells =
      let written =
        Ops.write_eeprom_with_originals L.channel spec plan.updates (some originals) verified_atomic
          s in
      raise-Applied plan.updates (memory s) written.0 written.1 (
        with_originals-AllOrNothing L.channel spec P plan.updates originals verified_atomic s refl
          tells)

  steps-Applied :
      (plan : EepromWritePlan) (s : L.channel.Channel) (checked : Result PlanError Updates)
      → ((originals : Updates)
          → checked ≡ Result.ok originals
          → (b v : ℕ) → find_original originals b ≡ some v
          → memory s b ≡ v)
      → Applied plan.updates
          (memory s)
          (continue
            (plan_outcome checked)
            (λ originals. opened L spec >>= λ _. write_planned plan originals)
            s).0
          (continue
            (plan_outcome checked)
            (λ originals. opened L spec >>= λ _. write_planned plan originals)
            s).1
  steps-Applied plan s (Result.err e) tells = refl
  steps-Applied plan s (Result.ok originals) tells =
      opened-Applied plan s originals (L.control_channel s) (tells originals refl)

  check_plan-tells :
      (plan : EepromWritePlan) (originals : Updates) (b v : ℕ)
      → check_plan spec plan ≡ Result.ok originals
      → find_original originals b ≡ some v
      → value_at plan.backup b ≡ some v
  unfolding check_plan
  check_plan-tells plan originals b v eq found =
      let (fits, eq1) = accept-ok (backup_fits spec plan.backup) _ _ originals eq in
      let (u, valid, eq2) = bind-ok (validate_eeprom_updates spec plan.updates) _ originals eq1 in
      originals_of-tells plan.backup plan.updates originals b v eq2 found

  -- A plan whose backup is true of the printer's memory ends with all updates written, and every other
  -- address as before; or with the memory as before, unless the report names a failed rollback; in any
  -- case only the addresses of the updates can differ.
  pub apply_eeprom_write-Applied :
      (plan : EepromWritePlan) (s : L.channel.Channel)
      → ((a v : ℕ) → value_at plan.backup a ≡ some v → memory s a ≡ v)
      → Applied plan.updates
          (memory s)
          (apply_eeprom_write L spec plan s).0
          (apply_eeprom_write L spec plan s).1
  unfolding apply_eeprom_write
  apply_eeprom_write-Applied plan s backed_up =
      steps-Applied plan s (check_plan spec plan)
        (λ originals eq b v found. backed_up b v (check_plan-tells plan originals b v eq found))

  abbrev IsPlan : Updates → (ℕ → ℕ) → EepromWritePlan → Type 0
  IsPlan updates before plan = (plan.updates ≡ updates) × IsBackup L spec P before plan.backup

  planned-Truthful :
      (updates : Updates) (checked : Result PlanError (Unit {0})) (s : L.channel.Channel)
      → Truthful memory (IsPlan updates) (memory s) (
          continue
            (plan_outcome checked)
            (λ _.
              dump_eeprom L spec >>= λ backup. pure (record { backup = backup; updates = updates }))
            s)
  planned-Truthful updates (Result.err e) s = (refl, λ plan eq. cc eq)
  planned-Truthful updates (Result.ok u) s =
      bind-Truthful memory (IsBackup L spec P) (IsPlan updates) (memory s) (dump_eeprom L spec) _ s
        (dump_eeprom-IsBackup L spec P s)
        (λ backup s' same is_backup. (
          same,
          λ plan eq. subst (IsPlan updates (memory s)) (ok_eq L spec P eq) (refl, is_backup),
        ))

  prepare_eeprom_write-Truthful :
      (updates : Updates) (s : L.channel.Channel)
      → Truthful memory (IsPlan updates) (memory s) (prepare_eeprom_write L spec updates s)
  unfolding prepare_eeprom_write
  prepare_eeprom_write-Truthful updates s =
      planned-Truthful updates (validate_eeprom_updates spec updates) s

  IsBackup-tells :
      (before : ℕ → ℕ) (image : EepromImage) (a v : ℕ)
      → IsBackup L spec P before image
      → value_at image a ≡ some v
      → before a ≡ v
  IsBackup-tells before image a v is_backup found =
      elim (Bool-cases (leb spec.memory_low a && leb a spec.memory_high)) [
        | inl inside ↦ some-injective (before a) v (sym (rw (is_backup.3 a, inside) refl) ∙ found)
        | inr outside ↦ absurd (none-ne-some v (sym (rw (is_backup.3 a, outside) refl) ∙ found))
      ]

  -- A plan that has been prepared and is then applied ends with all its updates written, and every other
  -- address as before the preparation; or with the memory as before, unless the report names a failed
  -- rollback; in any case only the addresses of the updates can differ.
  pub prepared_write-Applied :
      (updates : Updates) (s : L.channel.Channel) (plan : EepromWritePlan)
      → (prepare_eeprom_write L spec updates s).0 ≡ ok plan
      → Applied updates
          (memory s)
          (apply_eeprom_write L spec plan (prepare_eeprom_write L spec updates s).1).0
          (apply_eeprom_write L spec plan (prepare_eeprom_write L spec updates s).1).1
  prepared_write-Applied updates s plan prepared =
      let (same, tells) = prepare_eeprom_write-Truthful updates s in
      let (is_updates, is_backup) = tells plan prepared in
      let after = (prepare_eeprom_write L spec updates s).1 in
      let done = apply_eeprom_write L spec plan after in
      subst (λ before. Applied updates before done.0 done.1) same
        (subst (λ u. Applied u (memory after) done.0 done.1) is_updates
          (apply_eeprom_write-Applied plan after (λ a v found.
            ap (λ m. m a) same ∙ IsBackup-tells (memory s) plan.backup a v is_backup found)))
