-- ===== src/App/Updates.antt =====
-- crates/reink-app/src/lib.rs: which updates pass the checks, and the updates of a restore.
use mathlib.Core.Bool.{false≢true}
use mathlib.Core.List.{cons-ne-nil}
use reink_rust.App.Plan.{
  range_size, value_at, restore_eeprom_updates, validate_eeprom_updates, validate_from, numbered,
  has_address,
}
use reink_rust.Base.{
  ==_iff, Bool-cases, Result, err, inl, inr, sym, ◌∙◌, Option, err-ne-ok, get_elem?, if◌then◌else◌,
  le→ltb_false, ltb, lt→ltb, none, some, subst, suc, unwrap_or, ◌%◌, ◌-◌, ◌==◌, All, List, [],
  arith, false, length, ok, refl, ◌+◌, ◌<◌, ◌↔◌, ◌∷◌, ◌≡◌, ◌≢◌, ◌≤◌, ℕ,
}
use reink_rust.Epson.Spec.{EpsonSpec}
use reink_rust.Controller.Defs.{Updates}
use reink_rust.Controller.Updates.{overlay}

abbrev pub InRange : EpsonSpec → Updates → Type 0
InRange spec = All (λ u. (spec.memory_low ≤ u.0) × (u.0 ≤ spec.memory_high))

abbrev pub Fresh : ℕ → Updates → Type 0
Fresh address = All (λ u. u.0 ≢ address)

-- No address stands twice.
abbrev pub AllDistinct : Updates → Type 0
AllDistinct [] = Unit
AllDistinct ((address, value) ∷ updates) = Fresh address updates × AllDistinct updates

abbrev NoneSeen : List ℕ → Updates → Type 0
NoneSeen seen = All (λ u. has_address u.0 seen ≡ false)

NoneSeen-cons :
    (address : ℕ) (seen : List ℕ) (updates : Updates)
    → NoneSeen (address ∷ seen) updates ↔ (NoneSeen seen updates × Fresh address updates)
NoneSeen-cons address seen [] = ground arith
NoneSeen-cons address seen ((a, v) ∷ updates) = ground (arith, NoneSeen-cons address seen updates)

validate_from-ok :
    (spec : EpsonSpec) (seen : List ℕ) (updates : Updates)
    → (validate_from spec seen updates ≡ ok tt)
      ↔ (InRange spec updates × NoneSeen seen updates × AllDistinct updates)
unfolding validate_from
validate_from-ok spec seen [] = ground arith
validate_from-ok spec seen ((a, v) ∷ updates) =
    ground (arith, validate_from-ok spec (a ∷ seen) updates, NoneSeen-cons a seen updates)

NoneSeen-nil : (updates : Updates) → NoneSeen [] updates
NoneSeen-nil [] = tt
NoneSeen-nil (u ∷ updates) = (refl, NoneSeen-nil updates)

-- The checks pass if and only if there is an update, every address lies in the model's range, and no
-- address stands twice.
pub validate_eeprom_updates-ok :
    (spec : EpsonSpec) (updates : Updates)
    → (validate_eeprom_updates spec updates ≡ ok tt)
      ↔ ((updates ≢ []) × InRange spec updates × AllDistinct updates)
unfolding validate_eeprom_updates
validate_eeprom_updates-ok spec [] = (λ h. absurd (err-ne-ok h), λ h. absurd (h.0 refl))
validate_eeprom_updates-ok spec (u ∷ updates) =
    let v = validate_from-ok spec [] (u ∷ updates) in
    (
      λ h. (cons-ne-nil u updates, (v.0 h).0, (v.0 h).2),
      λ h. v.1 (h.1, NoneSeen-nil (u ∷ updates), h.2),
    )

numbered-InRange :
    (spec : EpsonSpec) (address : ℕ) (bytes : List ℕ)
    → spec.memory_high < 65536
    → spec.memory_low ≤ address
    → address + length bytes ≤ spec.memory_high + 1
    → InRange spec (numbered address bytes)
unfolding numbered
numbered-InRange spec address [] small low high = tt
numbered-InRange spec address (b ∷ bs) small low high =
    (ground arith, numbered-InRange spec (address + 1) bs small (omega arith) (omega arith))

numbered-Fresh :
    (spec_high a address : ℕ) (bytes : List ℕ)
    → spec_high < 65536
    → a < address
    → address + length bytes ≤ spec_high + 1
    → Fresh a (numbered address bytes)
unfolding numbered
numbered-Fresh high a address [] small below fits = tt
numbered-Fresh high a address (b ∷ bs) small below fits =
    ((λ eq. ground arith), numbered-Fresh high a (address + 1) bs small (omega arith) (omega arith))

numbered-AllDistinct :
    (high address : ℕ) (bytes : List ℕ)
    → high < 65536
    → address + length bytes ≤ high + 1
    → AllDistinct (numbered address bytes)
unfolding numbered
numbered-AllDistinct high address [] small fits = tt
numbered-AllDistinct high address (b ∷ bs) small fits = (
  subst (λ a. Fresh a (numbered (address + 1) bs)) (omega arith)
      (numbered-Fresh high address (address + 1) bs small (omega arith) (omega arith)),
  numbered-AllDistinct high (address + 1) bs small (omega arith),
)

-- The byte of an image at an address.
image_value : ℕ → List ℕ → ℕ → Option ℕ
image_value address bytes b = if ltb b address then none else get_elem? bytes (b - address)

image_value-below :
    (address : ℕ) (bytes : List ℕ) (b : ℕ) → b < address → image_value address bytes b ≡ none
unfolding image_value
image_value-below address bytes b h = rw (lt→ltb b address h) refl

image_value-head :
    (address x : ℕ) (xs : List ℕ) (b : ℕ) → address ≡ b → image_value address (x ∷ xs) b ≡ some x
unfolding image_value
image_value-head address x xs b eq =
    let at_start : b - address ≡ 0 = omega (arith, eq) in
    rw (le→ltb_false b address (omega (arith, eq)), at_start) refl

image_value-tail :
    (address x : ℕ) (xs : List ℕ) (b : ℕ)
    → address < b
    → image_value address (x ∷ xs) b ≡ image_value (address + 1) xs b
unfolding image_value
image_value-tail address x xs b h =
    let next : b - address ≡ suc (b - (address + 1)) = omega arith in
    rw (le→ltb_false b address (omega arith), le→ltb_false b (address + 1) (omega arith), next) refl

overlay-numbered :
    (high address : ℕ) (bytes : List ℕ) (before b : ℕ)
    → high < 65536
    → address + length bytes ≤ high + 1
    → overlay (numbered address bytes) before b ≡ unwrap_or (image_value address bytes b) before
unfolding numbered image_value
overlay-numbered high address [] before b small fits = ground arith
overlay-numbered high address (x ∷ xs) before b small fits =
    let wrap : address % 65536 ≡ address = omega arith in
    ground (
      arith,
      wrap,
      overlay-numbered high (address + 1) xs (if address == b then x else before) b small
          (omega arith),
      image_value-below address (x ∷ xs) b,
      image_value-below (address + 1) xs b,
      image_value-head address x xs b,
      image_value-tail address x xs b,
    )

numbered-ne-nil : (address : ℕ) (bytes : List ℕ) → 0 < length bytes → numbered address bytes ≢ []
unfolding numbered
numbered-ne-nil address [] h = absurd (omega (arith, h))
numbered-ne-nil address (b ∷ bs) h = cons-ne-nil (address % 65536, b) (numbered (address + 1) bs)

-- What a restore image comes to: one of another size than the model's range is refused, with both sizes; one
-- of that size gives updates that pass the checks and that leave, at each address, the byte of the image
-- there, and what was there at an address outside the range.
abbrev pub Restores : EpsonSpec → List ℕ → Result (ℕ × ℕ) Updates → Type 0
Restores spec bytes (err sizes) =
    (length bytes ≢ range_size spec) × (sizes ≡ (length bytes, range_size spec))
Restores spec bytes (ok updates) =
    (length bytes ≡ range_size spec)
    × (validate_eeprom_updates spec updates ≡ ok tt)
    × ((before b : ℕ)
        → overlay updates before b
          ≡ unwrap_or
              (value_at
                (record { model = spec.model; start_address = spec.memory_low; bytes = bytes }) b)
              before)

restored-Restores :
    (spec : EpsonSpec) (bytes : List ℕ)
    → spec.memory_low ≤ spec.memory_high
    → spec.memory_high < 65536
    → length bytes ≡ range_size spec
    → Restores spec bytes (ok (numbered spec.memory_low bytes))
unfolding value_at image_value
restored-Restores spec bytes ordered small size = (
  size,
  (validate_eeprom_updates-ok spec (numbered spec.memory_low bytes)).1 (
    numbered-ne-nil spec.memory_low bytes (omega arith),
    numbered-InRange spec spec.memory_low bytes small (omega arith) (omega arith),
    numbered-AllDistinct spec.memory_high spec.memory_low bytes small (omega arith),
  ),
  λ before b. overlay-numbered spec.memory_high spec.memory_low bytes before b small (omega arith),
)

-- For a model whose range is ordered and below 65536: a restore image of another size than the range is
-- refused, with both sizes; one of that size gives updates that pass the checks and that leave, at each
-- address, the byte of the image there, and what was there at an address outside the range.
pub restore_eeprom_updates-Restores :
    (spec : EpsonSpec) (bytes : List ℕ)
    → spec.memory_low ≤ spec.memory_high
    → spec.memory_high < 65536
    → Restores spec bytes (restore_eeprom_updates spec bytes)
unfolding restore_eeprom_updates
restore_eeprom_updates-Restores spec bytes ordered small =
    elim (Bool-cases (length bytes == range_size spec)) [
      | inl h ↦ rw h (restored-Restores spec bytes ordered small ((==_iff _ _).0 h))
      | inr h ↦ rw h ((λ eq. false≢true (sym h ∙ (==_iff _ _).1 eq)), refl)
    ]
