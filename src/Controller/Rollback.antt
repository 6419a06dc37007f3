-- ===== src/Controller/Rollback.antt =====
-- crates/reink-core/src/controller.rs: the rollback of `write_eeprom_with_originals`.
use reink_rust.Base.{
  Option, ◌∙◌, ==_iff, Bool-cases, none, ◌≢◌, Bool, List, Option-cases, [], arith, false, inl, inr,
  refl, some, true, ◌==◌, ◌||◌, ◌∷◌, ◌≡◌, ℕ,
}
use reink_rust.Platform.Control.{ControlChannel}
use reink_rust.Epson.Spec.{EpsonSpec}
use reink_rust.Controller.Defs.{
  AccessError, atomic_write_failed, ok, err, panicked, Updates, find_original,
}
use reink_rust.Controller.Ops.{write_eeprom_address, roll_back, fail_write}
use reink_rust.Controller.Memory.{Printer, Outcome-cases, write-memory_ne, write-memory_self}

abbrev pub member : ℕ → List ℕ → Bool
member b [] = false
member b (a ∷ as') = a == b || member b as'

missed :
    (a b : ℕ) (as' : List ℕ) (originals : Updates) {v : ℕ}
    → find_original originals a ≡ none
    → find_original originals b ≡ some v
    → member b as' ≡ false
    → member b (a ∷ as') ≡ false
missed a b as' originals n f m = elim (Bool-cases (a == b)) [
  | inl e ↦ cc (n, f, (==_iff a b).0 e)
  | inr e ↦ rw e m
]

module _ (C : ControlChannel) (spec : EpsonSpec) (P : Printer C spec) where
  open P use {memory}

  -- The rollback touches the attempted addresses alone.
  pub roll_back-memory_ne :
      (originals : Updates) (verify : Bool) (attempted : List ℕ) (s : C.Channel) (b : ℕ)
      → member b attempted ≡ false
      → memory (roll_back C spec originals verify attempted s).1 b ≡ memory s b
  unfolding roll_back
  roll_back-memory_ne originals verify [] s b h = refl
  roll_back-memory_ne originals verify (a ∷ as') s b h =
      elim (Option-cases (find_original originals a)) [
        | inl n ↦ ground (arith, n, roll_back-memory_ne originals verify as' s b)
        | inr (v, f) ↦
            let s' : C.Channel = (write_eeprom_address C spec a v verify s).1 in
            ground (
              arith,
              f,
              write-memory_ne C spec P a v verify s b (ground arith),
              roll_back-memory_ne originals verify as' s' b,
            )
      ]

  module _ (originals : Updates) (verify : Bool) (a : ℕ) (as' : List ℕ) (s : C.Channel) where
    roll_back_skip :
        find_original originals a ≡ none
        → roll_back C spec originals verify (a ∷ as') s ≡ roll_back C spec originals verify as' s
    unfolding roll_back
    roll_back_skip n = rw (n, roll_back)

    roll_back_ok :
        {w : ℕ} {u : Unit {0}}
        → find_original originals a ≡ some w
        → (write_eeprom_address C spec a w verify s).0 ≡ ok u
        → roll_back C spec originals verify (a ∷ as') s
          ≡ roll_back C spec originals verify as' (write_eeprom_address C spec a w verify s).1
    unfolding roll_back
    roll_back_ok g r = rw (g, r, roll_back)

    roll_back_reports :
        {w : ℕ} {x : AccessError}
        → find_original originals a ≡ some w
        → (write_eeprom_address C spec a w verify s).0 ≡ err x
        → (roll_back C spec originals verify (a ∷ as') s).0 ≢ ok []
    unfolding roll_back
    roll_back_reports g r h = ground (arith, g, r)

    roll_back_panics :
        {w : ℕ}
        → find_original originals a ≡ some w
        → (write_eeprom_address C spec a w verify s).0 ≡ panicked
        → (roll_back C spec originals verify (a ∷ as') s).0 ≢ ok []
    unfolding roll_back
    roll_back_panics g r h = ground (arith, g, r)

  -- One restoring write of the rollback.
  restored :
      (a b w v : ℕ) (as' : List ℕ) (s : C.Channel) (originals : Updates) {u : Unit {0}}
      → find_original originals a ≡ some w
      → find_original originals b ≡ some v
      → (write_eeprom_address C spec a w true s).0 ≡ ok u
      → (member b (a ∷ as') ≡ false → memory s b ≡ v)
      → member b as' ≡ false
      → memory (write_eeprom_address C spec a w true s).1 b ≡ v
  restored a b w v as' s originals g f r keep m = elim (Bool-cases (a == b)) [
    | inl e ↦ cc (write-memory_self C spec P a w s r, (==_iff a b).0 e, g, f)
    | inr e ↦ write-memory_ne C spec P a w true s b (λ p. ground arith) ∙ keep (rw e m)
  ]

  -- A rollback that reports no failure has restored each attempted address.
  roll_back-restores :
      (originals : Updates) (attempted : List ℕ) (s : C.Channel) (b v : ℕ)
      → find_original originals b ≡ some v
      → (member b attempted ≡ false → memory s b ≡ v)
      → (roll_back C spec originals true attempted s).0 ≡ ok []
      → memory (roll_back C spec originals true attempted s).1 b ≡ v
  roll_back-restores originals [] s b v f keep h = unfold roll_back in keep refl
  roll_back-restores originals (a ∷ as') s b v f keep h =
      elim (Option-cases (find_original originals a)) [
        | inl n ↦
            let skip = roll_back_skip originals true a as' s n in
            rw skip (
              roll_back-restores originals as' s b v f (λ m. keep (missed a b as' originals n f m))
                (rw skip at h))
        | inr (w, g) ↦ elim (Outcome-cases (write_eeprom_address C spec a w true s).0) [
          | inl (u, r) ↦
              let step = roll_back_ok originals true a as' s g r in
              rw step (
                roll_back-restores originals as' (write_eeprom_address C spec a w true s).1 b v f
                  (restored a b w v as' s originals g f r keep) (rw step at h))
          | inr (inl (x, r)) ↦ absurd (roll_back_reports originals true a as' s g r h)
          | inr (inr r) ↦ absurd (roll_back_panics originals true a as' s g r h)
        ]
      ]

  pub fail_write-restores :
      (originals : Updates) (a : ℕ) (x : AccessError) (attempted : List ℕ) (s : C.Channel)
      (b v c : ℕ) (reason : AccessError)
      → find_original originals b ≡ some v
      → (member b attempted ≡ false → memory s b ≡ v)
      → (fail_write C spec (some originals) true a x attempted s).0
        ≡ err (atomic_write_failed c reason [])
      → memory (fail_write C spec (some originals) true a x attempted s).1 b ≡ v
  unfolding fail_write
  fail_write-restores originals a x attempted s b v c reason f keep h =
      elim (Outcome-cases (roll_back C spec originals true attempted s).0) [
        | inl (errors, r) ↦
            let none_failed : errors ≡ [] = ground (arith, r) in
            rw (r, fail_write)
              (roll_back-restores originals attempted s b v f keep (rw none_failed at r))
        | inr (inl (never, r)) ↦ absurd never
        | inr (inr r) ↦ ground (arith, r)
      ]

  pub fail_write-fails :
      (originals : Option Updates) (a : ℕ) (x : AccessError) (attempted : List ℕ) (s : C.Channel)
      → (fail_write C spec originals true a x attempted s).0 ≢ ok tt
  unfolding fail_write
  fail_write-fails none a x attempted s h = cc
  fail_write-fails (some originals) a x attempted s h = ground arith

  pub fail_write-memory_ne :
      (originals : Option Updates) (verify : Bool) (a : ℕ) (x : AccessError) (attempted : List ℕ)
      (s : C.Channel) (b : ℕ)
      → member b attempted ≡ false
      → memory (fail_write C spec originals verify a x attempted s).1 b ≡ memory s b
  unfolding fail_write
  fail_write-memory_ne none verify a x attempted s b h = refl
  fail_write-memory_ne (some originals) verify a x attempted s b h =
      ground (arith, roll_back-memory_ne originals verify attempted s b h)
