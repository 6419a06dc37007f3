-- ===== src/Controller/Updates.antt =====
-- crates/reink-core/src/controller.rs: the loop of `write_eeprom_with_originals`, what it writes, and what
-- a failure leaves.
use reink_rust.Base.{
  Option, ap, ◌∙◌, ==_iff, Bool-cases, Bool, List, [], arith, false, if◌then◌else◌, inl, inr, refl,
  some, true, ◌==◌, ◌∷◌, ◌≡◌, ℕ,
}
use reink_rust.Platform.Control.{ControlChannel}
use reink_rust.Epson.Spec.{EpsonSpec}
use reink_rust.Controller.Defs.{
  AccessError, atomic_write_failed, ok, err, panicked, Updates, find_original,
}
use reink_rust.Controller.Ops.{update_addresses, write_eeprom_address, fail_write, write_loop}
use reink_rust.Controller.Memory.{Printer, Outcome-cases, write-memory_ne, write-memory_self}
use reink_rust.Controller.Rollback.{
  member, fail_write-restores, fail_write-fails, fail_write-memory_ne,
}

-- The value at `b` after the updates, in their order.
abbrev pub overlay : Updates → ℕ → ℕ → ℕ
overlay [] base b = base
overlay ((a, v) ∷ updates) base b = overlay updates (if a == b then v else base) b

module _ (C : ControlChannel) (spec : EpsonSpec) (P : Printer C spec) where
  open P use {memory}

  written :
      (a v : ℕ) (s : C.Channel) (b : ℕ) {u : Unit {0}}
      → (write_eeprom_address C spec a v true s).0 ≡ ok u
      → memory (write_eeprom_address C spec a v true s).1 b ≡ (if a == b then v else memory s b)
  written a v s b r = elim (Bool-cases (a == b)) [
    | inl e ↦ rw e (cc (write-memory_self C spec P a v s r, (==_iff a b).0 e))
    | inr e ↦ rw e (write-memory_ne C spec P a v true s b (λ p. ground arith))
  ]

  untouched :
      (a w : ℕ) (s : C.Channel) (attempted : List ℕ) (b v : ℕ)
      → (member b attempted ≡ false → memory s b ≡ v)
      → member b (a ∷ attempted) ≡ false
      → memory (write_eeprom_address C spec a w true s).1 b ≡ v
  untouched a w s attempted b v keep m =
      write-memory_ne C spec P a w true s b (λ p. ground arith) ∙ keep (ground arith)

  module _ (originals : Option Updates) (verify : Bool) (attempted : List ℕ) (a v : ℕ)
      (updates : Updates) (s : C.Channel) where
    write_loop_ok :
        {u : Unit {0}}
        → (write_eeprom_address C spec a v verify s).0 ≡ ok u
        → write_loop C spec originals verify attempted ((a, v) ∷ updates) s
          ≡ write_loop C spec originals verify
              (a ∷ attempted)
              updates
              (write_eeprom_address C spec a v verify s).1
    unfolding write_loop
    write_loop_ok r = rw (r, write_loop)

    write_loop_err :
        {x : AccessError}
        → (write_eeprom_address C spec a v verify s).0 ≡ err x
        → write_loop C spec originals verify attempted ((a, v) ∷ updates) s
          ≡ fail_write C spec originals verify a x
              (a ∷ attempted)
              (write_eeprom_address C spec a v verify s).1
    unfolding write_loop
    write_loop_err r = rw (r, write_loop)

    write_loop_panic :
        (write_eeprom_address C spec a v verify s).0 ≡ panicked
        → write_loop C spec originals verify attempted ((a, v) ∷ updates) s
          ≡ (panicked, (write_eeprom_address C spec a v verify s).1)
    unfolding write_loop
    write_loop_panic r = rw (r, write_loop)

  -- A loop that succeeds has written every update.
  pub write_loop-done :
      (originals : Option Updates) (attempted : List ℕ) (updates : Updates) (s : C.Channel) (b : ℕ)
      → (write_loop C spec originals true attempted updates s).0 ≡ ok tt
      → memory (write_loop C spec originals true attempted updates s).1 b
        ≡ overlay updates (memory s b) b
  write_loop-done originals attempted [] s b h = unfold write_loop in refl
  write_loop-done originals attempted ((a, v) ∷ updates) s b h =
      elim (Outcome-cases (write_eeprom_address C spec a v true s).0) [
        | inl (u, r) ↦
            let step = write_loop_ok originals true attempted a v updates s r in
            rw step (
              write_loop-done originals (a ∷ attempted) updates
                (write_eeprom_address C spec a v true s).1 b (rw step at h)
              ∙ ap (λ base. overlay updates base b) (written a v s b r))
        | inr (inl (x, r)) ↦ absurd (
            fail_write-fails C spec P originals a x (a ∷ attempted)
              (write_eeprom_address C spec a v true s).1
              (rw (write_loop_err originals true attempted a v updates s r) at h))
        | inr (inr r) ↦ cc (write_loop_panic originals true attempted a v updates s r)
      ]

  -- A loop that fails and reports no failed rollback has put back every original.
  pub write_loop-restores :
      (originals : Updates) (attempted : List ℕ) (updates : Updates) (s : C.Channel) (b v : ℕ)
      (c : ℕ) (reason : AccessError)
      → find_original originals b ≡ some v
      → (member b attempted ≡ false → memory s b ≡ v)
      → (write_loop C spec (some originals) true attempted updates s).0
        ≡ err (atomic_write_failed c reason [])
      → memory (write_loop C spec (some originals) true attempted updates s).1 b ≡ v
  write_loop-restores originals attempted [] s b v c reason f keep h = unfold write_loop in cc
  write_loop-restores originals attempted ((a, w) ∷ updates) s b v c reason f keep h =
      elim (Outcome-cases (write_eeprom_address C spec a w true s).0) [
        | inl (u, r) ↦
            let step = write_loop_ok (some originals) true attempted a w updates s r in
            rw step (
              write_loop-restores originals (a ∷ attempted) updates
                (write_eeprom_address C spec a w true s).1 b v c reason f
                (untouched a w s attempted b v keep) (rw step at h))
        | inr (inl (x, r)) ↦
            let step = write_loop_err (some originals) true attempted a w updates s r in
            rw step (
              fail_write-restores C spec P originals a x (a ∷ attempted)
                (write_eeprom_address C spec a w true s).1 b v c reason f
                (untouched a w s attempted b v keep) (rw step at h))
        | inr (inr r) ↦ cc (write_loop_panic (some originals) true attempted a w updates s r)
      ]

  -- An address that no update names keeps its value, whatever happens.
  pub write_loop-memory_ne :
      (originals : Option Updates) (verify : Bool) (attempted : List ℕ) (updates : Updates)
      (s : C.Channel) (b : ℕ)
      → member b attempted ≡ false
      → member b (update_addresses updates) ≡ false
      → memory (write_loop C spec originals verify attempted updates s).1 b ≡ memory s b
  write_loop-memory_ne originals verify attempted [] s b h k = unfold write_loop in refl
  write_loop-memory_ne originals verify attempted ((a, v) ∷ updates) s b h k =
      let kept = write-memory_ne C spec P a v verify s b (λ p. ground arith) in
      elim (Outcome-cases (write_eeprom_address C spec a v verify s).0) [
        | inl (u, r) ↦ rw (write_loop_ok originals verify attempted a v updates s r) (
            write_loop-memory_ne originals verify (a ∷ attempted) updates
              (write_eeprom_address C spec a v verify s).1 b (ground arith) (ground arith)
            ∙ kept)
        | inr (inl (x, r)) ↦ rw (write_loop_err originals verify attempted a v updates s r) (
            fail_write-memory_ne C spec P originals verify a x (a ∷ attempted)
              (write_eeprom_address C spec a v verify s).1 b (ground arith)
            ∙ kept)
        | inr (inr r) ↦ rw (write_loop_panic originals verify attempted a v updates s r) kept
      ]
