-- ===== src/Epson/Loaded.antt =====
-- crates/reink-core/src/epson.rs: the specifications that a database holds after loading.
use reink_rust.Epson.Fields.{validate_read_only_fields-ok}
use reink_rust.Base.Text.{text, chars, is_empty}
use reink_rust.Epson.WellFormed.{IsSpec, IsOperation, IsWriteKey, IsField}
use reink_rust.Epson.Load.{
  validate_read_only_fields, check_memory_range, latin1_bytes, load_write_key, load_group,
}
use reink_rust.Epson.Raw.{
  confidence_from_raw, encoding_from_raw, width_from_raw, check_location, check_length,
  non_latin1_write_key, field_location, fixed_byte_len, RawMemoryOperation, RawEepromField, RawSpec,
  into_eeprom_field, operation_from_raw,
}
use reink_rust.Base.{
  collect, leb, length, ◌&&◌, ◌==◌, ◌||◌, ==_iff, [], accept-ok, arith, bind-ok, collect-All, err,
  err-ne-ok, false, if◌then◌else◌, ltb, ltb_false→le, ltb→lt, not, refl, refuse-ok, ◌+◌, ◌-◌, ◌∷◌,
  ◌≤◌, List, Option, none, ok, ok-injective, some, subst, ◌≡◌, ℕ,
}
use reink_rust.Base.Bytes.{IsByte}
use reink_rust.Epson.Spec.{EepromFieldEncoding, MemoryOperation, EepromField, EpsonSpec}

not-is_empty-false : (xs : List ℕ) → not (is_empty xs) ≡ false → xs ≡ []
not-is_empty-false [] h = refl
not-is_empty-false (x ∷ xs) h = cc h

field_location-ordered :
    (label : List ℕ) (address : Option ℕ) (range : Option (ℕ × ℕ)) (found : ℕ × ℕ)
    → field_location label address range ≡ ok found
    → found.0 ≤ found.1
unfolding field_location
field_location-ordered label (some a) none found eq =
    subst (λ p. p.0 ≤ p.1) (ok-injective eq) (omega arith)
field_location-ordered label none (some (a, b)) found eq =
    let (ordered, eq1) = accept-ok (leb a b) _ _ found eq in
    subst (λ p. p.0 ≤ p.1) (ok-injective eq1) (ground arith)
field_location-ordered label none none found eq = absurd (err-ne-ok eq)
field_location-ordered label (some _) (some _) found eq = absurd (err-ne-ok eq)

check_length-ok :
    (label : List ℕ) (encoding : EepromFieldEncoding) (byte_len : ℕ) (expected : Option ℕ)
    (u : Unit {0})
    → check_length label encoding byte_len expected ≡ ok u
    → (n : ℕ) → expected ≡ some n
    → byte_len ≡ n
check_length-ok label encoding byte_len none u eq n h = cc h
check_length-ok label encoding byte_len (some m) u eq n h =
    let (fits, _) = accept-ok (byte_len == m) _ _ u eq in ground arith

latin1-IsByte : (c b : ℕ) → (if ltb c 256 then ok c else err non_latin1_write_key) ≡ ok b → IsByte b
latin1-IsByte c b eq =
    let (small, same_byte) = accept-ok (ltb c 256) _ _ b eq in
    subst IsByte (ok-injective same_byte) (ltb→lt c 256 small)

operation_from_raw-IsOperation :
    (raw : RawMemoryOperation) (operation : MemoryOperation)
    → operation_from_raw raw ≡ ok operation
    → IsOperation operation
unfolding operation_from_raw
operation_from_raw-IsOperation raw operation eq =
    let (some_address, eq1) = refuse-ok (is_empty raw.addr) _ _ operation eq in
    let (lengths, eq2) =
      refuse-ok (not (is_empty raw.reset) && not (length raw.reset == length raw.addr)) _ _
        operation eq1 in
    subst IsOperation (ok-injective eq2) (record {
      addresses_ne_nil = some_address;
      declared_length = λ declared. ground arith;
      undeclared_nil = λ undeclared. not-is_empty-false raw.reset undeclared;
    })

into_eeprom_field-IsField :
    (low high : ℕ) (raw : RawEepromField) (field : EepromField)
    → into_eeprom_field raw low high ≡ ok field
    → IsField low high field
unfolding into_eeprom_field
into_eeprom_field-IsField low high raw field eq =
    let ((address, end_address), located, eq1) =
      bind-ok (field_location raw.label raw.address raw.range) _ field eq in
    let (inside, checked, eq2) =
      bind-ok (check_location raw.label address end_address low high) _ field eq1 in
    let (encoding, encoded, eq3) = bind-ok (encoding_from_raw raw.label raw.encoding) _ field eq2 in
    let (long_enough, measured, eq4) =
      bind-ok
        (check_length raw.label encoding (end_address - address + 1) (fixed_byte_len encoding)) _
        field eq3 in
    let (confidence, trusted, eq5) =
      bind-ok (confidence_from_raw raw.label raw.confidence) _ field eq4 in
    let (within_range, _) =
      refuse-ok (ltb address low || ltb high end_address) _ _ inside checked in
    subst (IsField low high) (ok-injective eq5) (record {
      ordered =
          field_location-ordered raw.label raw.address raw.range (address, end_address) located;
      above_low = ground arith;
      below_high = ground arith;
      encoded_length =
          check_length-ok raw.label encoding (end_address - address + 1) (fixed_byte_len encoding)
            long_enough measured;
    })

load_write_key-IsWriteKey :
    (raw key : Option (List ℕ)) → load_write_key raw ≡ ok key → IsWriteKey key
unfolding load_write_key
load_write_key-IsWriteKey none key eq = subst IsWriteKey (ok-injective eq) tt
load_write_key-IsWriteKey (some raw) key eq =
    let (bytes, chars_ok, eq1) = bind-ok (latin1_bytes raw) _ key eq in
    let (eight, eq2) = accept-ok (length bytes == 8) _ _ key eq1 in
    subst IsWriteKey {x = some bytes} (ok-injective eq2)
      (collect-All IsByte _ latin1-IsByte (chars raw) bytes chars_ok, (==_iff _ _).0 eight)

pub load_group-IsSpec :
    (raw : RawSpec) (make : List ℕ → EpsonSpec) (name : List ℕ)
    → load_group raw ≡ ok make
    → IsSpec (make name) × ((make name).model ≡ name)
unfolding load_group
load_group-IsSpec raw make name eq =
    let (read_width, _, eq1) = bind-ok (width_from_raw (text "rlen") raw.read_length) _ make eq in
    let (write_width, _, eq2) =
      bind-ok (width_from_raw (text "wlen") raw.write_length) _ make eq1 in
    let (ordered, in_order, eq3) =
      bind-ok (check_memory_range raw.memory_low raw.memory_high) _ make eq2 in
    let (key, keyed, eq4) = bind-ok (load_write_key raw.write_key) _ make eq3 in
    let (operations, operated, eq5) = bind-ok (collect operation_from_raw raw.mem) _ make eq4 in
    let (fields, fielded, eq6) =
      bind-ok
        (collect (λ field. into_eeprom_field field raw.memory_low raw.memory_high)
          raw.read_only_fields)
        _ make eq5 in
    let (valid, validated, eq7) = bind-ok (validate_read_only_fields fields) _ make eq6 in
    let (range, _) = refuse-ok (ltb raw.memory_high raw.memory_low) _ _ ordered in_order in
    subst (λ m. IsSpec (m name) × ((m name).model ≡ name)) (ok-injective eq7)
      (
        record {
          range = ltb_false→le raw.memory_high raw.memory_low range;
          key = load_write_key-IsWriteKey raw.write_key key keyed;
          operations =
              collect-All IsOperation operation_from_raw operation_from_raw-IsOperation raw.mem
                operations operated;
          fields =
              collect-All (IsField raw.memory_low raw.memory_high) _
                (into_eeprom_field-IsField raw.memory_low raw.memory_high) raw.read_only_fields
                fields fielded;
          disjoint = (validate_read_only_fields-ok fields).0 validated;
        },
        refl,
      )
