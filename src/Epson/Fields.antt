-- ===== src/Epson/Fields.antt =====
-- crates/reink-core/src/epson.rs: `validate_read_only_fields`, and ranges that do not meet.
use reink_rust.Base.{
  All-concat, All, List, Option-cases, [], arith, false, inl, inr, none, ok, refl, ◌++◌, ◌<◌, ◌↔◌,
  ◌∷◌, ◌≡◌, ◌⊎◌,
}
use reink_rust.Epson.Spec.{EepromField}
use reink_rust.Epson.Load.{find_overlap, overlaps, validate_from, validate_read_only_fields}

abbrev pub AreDisjoint : EepromField → EepromField → Type 0
AreDisjoint a b = (a.end_address < b.address) ⊎ (b.end_address < a.address)

-- No two fields of the list meet.
abbrev pub AllDisjoint : List EepromField → Type 0
AllDisjoint [] = Unit
AllDisjoint (field ∷ fields) = All (AreDisjoint field) fields × AllDisjoint fields

overlaps-false :
    (field other : EepromField) → (overlaps field other ≡ false) ↔ AreDisjoint other field
overlaps-false field other = ground arith

find_overlap-none :
    (field : EepromField) (others : List EepromField)
    → (find_overlap field others ≡ none) ↔ All (λ other. AreDisjoint other field) others
unfolding find_overlap
find_overlap-none field [] = (λ _. tt, λ _. refl)
find_overlap-none field (other ∷ others) =
    ground (arith, overlaps-false field other, find_overlap-none field others)

-- Each field of the second list is apart from those of the first.
abbrev Apart : List EepromField → List EepromField → Type 0
Apart earlier = All (λ field. All (λ other. AreDisjoint other field) earlier)

Apart-concat :
    (earlier fields : List EepromField) (field : EepromField)
    → Apart (earlier ++ field ∷ []) fields ↔ (Apart earlier fields × All (AreDisjoint field) fields)
Apart-concat earlier [] field = (λ _. (tt, tt), λ _. tt)
Apart-concat earlier (f ∷ fields) field = ground (
  arith,
  All-concat (λ other. AreDisjoint other f) earlier field,
  Apart-concat earlier fields field,
)

validate_from-ok :
    (earlier fields : List EepromField)
    → (validate_from earlier fields ≡ ok tt) ↔ (Apart earlier fields × AllDisjoint fields)
unfolding validate_from
validate_from-ok earlier [] = (λ _. (tt, tt), λ _. refl)
validate_from-ok earlier (field ∷ fields) = elim (Option-cases (find_overlap field earlier)) [
  | inl eq ↦ ground (
    arith,
    eq,
    find_overlap-none field earlier,
    validate_from-ok (earlier ++ field ∷ []) fields,
    Apart-concat earlier fields field,
  )
  | inr (other, eq) ↦ ground (arith, eq, find_overlap-none field earlier)
]

Apart-nil : (fields : List EepromField) → Apart [] fields
Apart-nil [] = tt
Apart-nil (field ∷ fields) = (tt, Apart-nil fields)

-- The check of the fields passes if and only if of any two of them one ends before the other starts.
pub validate_read_only_fields-ok :
    (fields : List EepromField) → (validate_read_only_fields fields ≡ ok tt) ↔ AllDisjoint fields
unfolding validate_read_only_fields
validate_read_only_fields-ok fields = ground (arith, validate_from-ok [] fields, Apart-nil fields)
