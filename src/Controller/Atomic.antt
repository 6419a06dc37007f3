-- ===== src/Controller/Atomic.antt =====
-- crates/reink-core/src/controller.rs: atomic writes of `EpsonController` as a whole.
use reink_rust.Base.{
  subst, Bool, Option, Option-cases, sym, ◌∙◌, true, ==_iff, Bool-cases, List, [], ap, arith, false,
  inl, inr, none, refl, some, ◌==◌, ◌∷◌, ◌≡◌, ℕ,
}
use mathlib.Core.Path.{fun_ext}
use reink_rust.Platform.Control.{ControlChannel}
use reink_rust.Epson.Spec.{EpsonSpec}
use reink_rust.Command.{EepromReadReply}
use reink_rust.Controller.Defs.{
  EepromWriteOptions, AccessError, EpsonError, access, atomic_write_failed, missing_atomic_original,
  Outcome, ok, err, panicked, Updates, find_original,
}
use reink_rust.Controller.Ops.{
  missing_original, reply_pairs, update_addresses, read_eeprom_address, read_eeprom, fail_write,
  write_eeprom_address, write_loop, check_originals, write_eeprom_with_originals, write_eeprom,
}
use reink_rust.Controller.Memory.{Printer, Outcome-cases, read-memory, read_true}
use reink_rust.Controller.Rollback.{member}
use reink_rust.Controller.Updates.{
  overlay, write_loop-done, write_loop-restores, write_loop-memory_ne,
}

-- Where every update has an original, an address without one is not updated.
missing_original-none :
    (originals updates : Updates) (b : ℕ)
    → missing_original originals updates ≡ none
    → find_original originals b ≡ none
    → member b (update_addresses updates) ≡ false
unfolding missing_original
missing_original-none originals [] b h n = refl
missing_original-none originals ((a, v) ∷ updates) b h n = elim (Bool-cases (a == b)) [
  | inl e ↦ let same : a ≡ b = (==_iff a b).0 e in ground (arith, ap (find_original originals) same)
  | inr e ↦ ground (arith, e, missing_original-none originals updates b)
]

abbrev is_atomic : EpsonError → Bool
is_atomic (atomic_write_failed _ _ _) = true
is_atomic _ = false

module _ (C : ControlChannel) (spec : EpsonSpec) (P : Printer C spec) where
  open P use {memory}

  -- What the state after a write holds, for each way in which the write can end.
  unfoldable pub AllOrNothing :
      Updates → (ℕ → ℕ) → Outcome EpsonError (Unit {0}) → C.Channel → Type 0
  AllOrNothing updates before (ok u) s' = (b : ℕ) → memory s' b ≡ overlay updates (before b) b
  AllOrNothing updates before (err (atomic_write_failed a reason (x ∷ xs))) s' =
      (b : ℕ) → member b (update_addresses updates) ≡ false → memory s' b ≡ before b
  AllOrNothing updates before (err e) s' = (b : ℕ) → memory s' b ≡ before b
  AllOrNothing updates before panicked s' =
      (b : ℕ) → member b (update_addresses updates) ≡ false → memory s' b ≡ before b

  pub read_eeprom-memory :
      (addresses : List ℕ) (s : C.Channel) (b : ℕ)
      → memory (read_eeprom C spec addresses s).1 b ≡ memory s b
  unfolding read_eeprom
  read_eeprom-memory [] s b = refl
  read_eeprom-memory (a ∷ as') s b = ground (
    arith,
    read-memory C spec P a s b,
    read_eeprom-memory as' (read_eeprom_address C spec a s).1 b,
  )

  read_eeprom_true :
      (addresses : List ℕ) (s : C.Channel) (replies : List EepromReadReply) (b v : ℕ)
      → (read_eeprom C spec addresses s).0 ≡ ok replies
      → find_original (reply_pairs replies) b ≡ some v
      → memory s b ≡ v
  unfolding read_eeprom find_original
  read_eeprom_true [] s replies b v h f = ground arith
  read_eeprom_true (a ∷ as') s replies b v h f =
      let s' : C.Channel = (read_eeprom_address C spec a s).1 in
      elim (Outcome-cases (read_eeprom_address C spec a s).0) [
        | inl (reply, r) ↦ elim (Outcome-cases (read_eeprom C spec as' s').0) [
          | inl (rest, q) ↦ ground (
            arith,
            r,
            q,
            read_true C spec P a s reply r,
            read-memory C spec P a s b,
            read_eeprom_true as' s' rest b v q,
          )
          | inr other ↦ ground (arith, r, other)
        ]
        | inr other ↦ ground (arith, other)
      ]

  fail_write-is_atomic :
      (originals : Option Updates) (verify : Bool) (a : ℕ) (x : AccessError) (attempted : List ℕ)
      (s : C.Channel) (e : EpsonError)
      → (fail_write C spec originals verify a x attempted s).0 ≡ err e
      → is_atomic e ≡ true
  unfolding fail_write
  fail_write-is_atomic none verify a x attempted s e h = ground arith
  fail_write-is_atomic (some originals) verify a x attempted s e h = ground arith

  write_loop-is_atomic :
      (originals : Option Updates) (verify : Bool) (attempted : List ℕ) (updates : Updates)
      (s : C.Channel) (e : EpsonError)
      → (write_loop C spec originals verify attempted updates s).0 ≡ err e
      → is_atomic e ≡ true
  unfolding write_loop
  write_loop-is_atomic originals verify attempted [] s e h = cc
  write_loop-is_atomic originals verify attempted ((a, v) ∷ updates) s e h =
      let s' : C.Channel = (write_eeprom_address C spec a v verify s).1 in
      elim (Outcome-cases (write_eeprom_address C spec a v verify s).0) [
        | inl (u, r) ↦
            ground (arith, r, write_loop-is_atomic originals verify (a ∷ attempted) updates s' e)
        | inr (inl (x, r)) ↦
            ground (arith, r, fail_write-is_atomic originals verify a x (a ∷ attempted) s' e)
        | inr (inr r) ↦ ground (arith, r)
      ]

  -- The loop, from a state that the originals describe.
  loop-AllOrNothing :
      (updates originals : Updates) (s : C.Channel)
      → ((b v : ℕ) → find_original originals b ≡ some v → memory s b ≡ v)
      → missing_original originals updates ≡ none
      → (o : Outcome EpsonError (Unit {0}))
      → (write_loop C spec (some originals) true [] updates s).0 ≡ o
      → AllOrNothing updates (memory s) o (write_loop C spec (some originals) true [] updates s).1
  unfolding AllOrNothing
  loop-AllOrNothing updates originals s tells covers (ok u) e =
      λ b. write_loop-done C spec P (some originals) [] updates s b e
  loop-AllOrNothing updates originals s tells covers (err (atomic_write_failed a reason [])) e =
      λ b. elim (Option-cases (find_original originals b)) [
        | inl n ↦
            write_loop-memory_ne C spec P (some originals) true [] updates s b refl
              (missing_original-none originals updates b covers n)
        | inr (v, f) ↦
            write_loop-restores C spec P originals [] updates s b v a reason f (λ _. tells b v f) e
            ∙ sym (tells b v f)
      ]
  loop-AllOrNothing updates originals s tells covers (err (atomic_write_failed a reason (x ∷ xs)))
        e =
      λ b m. write_loop-memory_ne C spec P (some originals) true [] updates s b refl m
  loop-AllOrNothing updates originals s tells covers (err x) e =
      cc (write_loop-is_atomic (some originals) true [] updates s x e)
  loop-AllOrNothing updates originals s tells covers panicked e =
      λ b m. write_loop-memory_ne C spec P (some originals) true [] updates s b refl m

  module _ (updates originals : Updates) (options : EepromWriteOptions) (s : C.Channel) where
    covered :
        missing_original originals updates ≡ none
        → write_eeprom_with_originals C spec updates (some originals) options s
          ≡ write_loop C spec (some originals) options.verify_read_back [] updates s
    unfolding write_eeprom_with_originals check_originals
    covered n = rw (n, write_eeprom_with_originals, check_originals)

    uncovered :
        {a : ℕ}
        → missing_original originals updates ≡ some a
        → write_eeprom_with_originals C spec updates (some originals) options s
          ≡ (err (missing_atomic_original a), s)
    unfolding write_eeprom_with_originals check_originals
    uncovered n = rw (n, write_eeprom_with_originals, check_originals)

    -- A verified write with originals that are true of the memory before it.
    pub with_originals-AllOrNothing :
        options.verify_read_back ≡ true
        → ((b v : ℕ) → find_original originals b ≡ some v → memory s b ≡ v)
        → AllOrNothing updates
            (memory s)
            (write_eeprom_with_originals C spec updates (some originals) options s).0
            (write_eeprom_with_originals C spec updates (some originals) options s).1
    with_originals-AllOrNothing verify tells =
        elim (Option-cases (missing_original originals updates)) [
          | inl covers ↦
              rw (covered covers, verify)
                (loop-AllOrNothing updates originals s tells covers _ refl)
          | inr (a, n) ↦ rw (uncovered n) (unfold AllOrNothing in λ b. refl)
        ]

  module _ (updates : Updates) (options : EepromWriteOptions) (s : C.Channel) where
    after_reads :
        {replies : List EepromReadReply}
        → options.atomic ≡ true
        → (read_eeprom C spec (update_addresses updates) s).0 ≡ ok replies
        → write_eeprom C spec updates options s
          ≡ write_eeprom_with_originals C spec updates
              (some (reply_pairs replies))
              options
              (read_eeprom C spec (update_addresses updates) s).1
    unfolding write_eeprom
    after_reads a r = ground (arith, a, r)

    read_failed :
        {x : AccessError}
        → options.atomic ≡ true
        → (read_eeprom C spec (update_addresses updates) s).0 ≡ err x
        → write_eeprom C spec updates options s
          ≡ (err (access x), (read_eeprom C spec (update_addresses updates) s).1)
    unfolding write_eeprom
    read_failed a r = ground (arith, a, r)

    read_panicked :
        options.atomic ≡ true
        → (read_eeprom C spec (update_addresses updates) s).0 ≡ panicked
        → write_eeprom C spec updates options s
          ≡ (panicked, (read_eeprom C spec (update_addresses updates) s).1)
    unfolding write_eeprom
    read_panicked a r = ground (arith, a, r)

  -- An atomic write with verification, over a printer that may refuse, drop or distort any write:
  -- if it succeeds, every address holds the last value that the updates give it and every other
  -- address is as before; if it fails and reports no failed rollback, or fails before it writes,
  -- the whole memory is as before; in any case only the addresses of the updates can differ.
  pub write_eeprom-AllOrNothing :
      (updates : Updates) (options : EepromWriteOptions) (s : C.Channel)
      → options.verify_read_back ≡ true
      → options.atomic ≡ true
      → AllOrNothing updates
          (memory s)
          (write_eeprom C spec updates options s).0
          (write_eeprom C spec updates options s).1
  write_eeprom-AllOrNothing updates options s verify atomic =
      let reads = read_eeprom C spec (update_addresses updates) s in
      elim (Outcome-cases reads.0) [
        | inl (replies, r) ↦ rw (after_reads updates options s atomic r) (
            subst
              (λ before.
                AllOrNothing updates before
                  (write_eeprom_with_originals C spec updates (some (reply_pairs replies)) options
                    reads.1).0
                  (write_eeprom_with_originals C spec updates (some (reply_pairs replies)) options
                    reads.1).1)
              (fun_ext (read_eeprom-memory (update_addresses updates) s))
              (with_originals-AllOrNothing updates (reply_pairs replies) options reads.1 verify
                (λ b v f.
                  read_eeprom-memory (update_addresses updates) s b
                  ∙ read_eeprom_true (update_addresses updates) s replies b v r f)))
        | inr (inl (x, r)) ↦
            rw (read_failed updates options s atomic r)
              (unfold AllOrNothing in read_eeprom-memory (update_addresses updates) s)
        | inr (inr r) ↦
            rw (read_panicked updates options s atomic r)
              (unfold AllOrNothing in λ b m. read_eeprom-memory (update_addresses updates) s b)
      ]
