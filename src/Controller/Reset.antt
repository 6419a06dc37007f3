-- ===== src/Controller/Reset.antt =====
-- crates/reink-core/src/controller.rs: `reset_waste`, against the operations of a specification.
use reink_rust.Base.{
  ap, none, subst, sym, ◌∙◌, ==_iff, List, Option-cases, [], if◌then◌else◌, inl, inr, length, refl,
  some, true, ◌==◌, ◌∷◌, ◌≡◌, ℕ,
}
use reink_rust.Base.Text.{to_ascii_lowercase}
use reink_rust.Platform.Control.{ControlChannel}
use reink_rust.Epson.Spec.{EpsonSpec, MemoryOperation, waste, description_fragment, counter_reset}
use reink_rust.Epson.Merge.{after_writes, after_operations}
use reink_rust.Epson.Reset.{Refines, merged_operation-Refines}
use reink_rust.Controller.Defs.{EepromWriteOptions, ok, err, operation_unavailable}
use reink_rust.Controller.Ops.{zip_updates, write_eeprom, write_operation, reset_waste}
use reink_rust.Controller.Memory.{Printer}
use reink_rust.Controller.Updates.{overlay}
use reink_rust.Controller.Atomic.{AllOrNothing, write_eeprom-AllOrNothing}

overlay-zip_updates :
    (as' vs : List ℕ) (b before : ℕ)
    → overlay (zip_updates as' vs) before b ≡ after_writes as' vs b before
unfolding after_writes
overlay-zip_updates [] vs b before = refl
overlay-zip_updates (a ∷ as') [] b before = refl
overlay-zip_updates (a ∷ as') (v ∷ vs) b before =
    overlay-zip_updates as' vs b (if a == b then v else before)

counter_reset-Refines :
    (spec : EpsonSpec)
    → Refines
        (to_ascii_lowercase (description_fragment waste))
        spec.memory_operations
        (counter_reset spec waste)
unfolding counter_reset
counter_reset-Refines spec = merged_operation-Refines spec (description_fragment waste)

module _ (C : ControlChannel) (spec : EpsonSpec) (P : Printer C spec) where
  open P use {memory}

  -- A merged operation passes the checks of `write_operation`.
  written_out :
      (options : EepromWriteOptions) (s : C.Channel) (operation : MemoryOperation)
      → counter_reset spec waste ≡ some operation
      → Refines
          (to_ascii_lowercase (description_fragment waste))
          spec.memory_operations
          (some operation)
      → reset_waste C spec options s
        ≡ write_eeprom C spec (zip_updates operation.addresses operation.reset_values) options s
  unfolding reset_waste write_operation Refines
  written_out options s operation h r =
      let paired = (==_iff (length operation.addresses) (length operation.reset_values)).1 r.2 in
      rw (h, reset_waste, write_operation, r.1, paired) refl

  no_operation :
      (options : EepromWriteOptions) (s : C.Channel)
      → counter_reset spec waste ≡ none
      → (reset_waste C spec options s).0 ≡ err operation_unavailable
  unfolding reset_waste
  no_operation options s h = rw (h, reset_waste) refl

  -- A reset of the waste counters that is atomic and verified and succeeds leaves at every address
  -- what the waste operations of the specification with declared resets would leave there, written
  -- one after the other; an address that they do not name is as before.
  pub reset_waste-writes :
      (options : EepromWriteOptions) (s : C.Channel)
      → options.verify_read_back ≡ true
      → options.atomic ≡ true
      → (reset_waste C spec options s).0 ≡ ok tt
      → (b : ℕ)
      → memory (reset_waste C spec options s).1 b
        ≡ after_operations
            (to_ascii_lowercase (description_fragment waste))
            spec.memory_operations
            b
            (memory s b)
  unfolding AllOrNothing Refines
  reset_waste-writes options s verify atomic done b =
      elim (Option-cases (counter_reset spec waste)) [
        | inl n ↦ cc (no_operation options s n)
        | inr (operation, n) ↦
            let r =
              subst
                (Refines (to_ascii_lowercase (description_fragment waste)) spec.memory_operations) n
                (counter_reset-Refines spec) in
            let updates = zip_updates operation.addresses operation.reset_values in
            let same = written_out options s operation n r in
            let succeeds = sym (ap (λ o. o.0) same) ∙ done in
            let holds =
              subst
                (λ o.
                  AllOrNothing C spec P updates (memory s) o
                    (write_eeprom C spec updates options s).1)
                succeeds (write_eeprom-AllOrNothing C spec P updates options s verify atomic) in
            ap (λ o. memory o.1 b) same
            ∙ holds b
            ∙ overlay-zip_updates operation.addresses operation.reset_values b (memory s b)
            ∙ r.3 b (memory s b)
      ]
