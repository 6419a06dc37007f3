-- ===== src/Usb/Redaction.antt =====
-- crates/reink-usb/src/native.rs: `redact_identity_serial_fields`.
-- A pass is a scan over the bytes: it searches for the marker, copies the rest of one that it has found,
-- and with nothing left to copy it hides the value up to its semicolon.
use reink_rust.Base.Text.{lowercase_byte, text}
use mathlib.Core.Bool.{false≢true}
use reink_rust.Base.{
  ◌∙◌, ==_iff, Bool-cases, inl, inr, sym, ◌≢◌, All, Bool, List, [], ap, arith, drop, false,
  if◌then◌else◌, length, not, refl, suc, true, zero, ◌&&◌, ◌-◌, ◌==◌, ◌||◌, ◌∷◌, ◌≡◌, ℕ,
}

pub data Scan : Type 0 where
  searching : Scan
  keeping : ℕ → Scan

-- `eq_ignore_ascii_case` of two bytes, and of the window at the front.
unfoldable pub same_letter : ℕ → ℕ → Bool
same_letter b c = lowercase_byte b == lowercase_byte c

unfoldable pub starts_with_letters : List ℕ → List ℕ → Bool
unfolding same_letter
starts_with_letters bs [] = true
starts_with_letters [] (c ∷ cs) = false
starts_with_letters (b ∷ bs) (c ∷ cs) = same_letter b c && starts_with_letters bs cs

abbrev hidden_byte : ℕ → ℕ
hidden_byte b = if b == b';' then b else b'X'

abbrev after_hidden : ℕ → Scan
after_hidden b = if b == b';' then searching else keeping 0

abbrev after_search : List ℕ → List ℕ → Scan
unfolding starts_with_letters
after_search marker bs =
    if starts_with_letters bs marker then keeping (length marker - 1) else searching

unfoldable pub redact_from : List ℕ → Scan → List ℕ → List ℕ
unfolding starts_with_letters
redact_from marker scan [] = []
redact_from marker searching (b ∷ bs) = b ∷ redact_from marker (after_search marker (b ∷ bs)) bs
redact_from marker (keeping zero) (b ∷ bs) = hidden_byte b ∷ redact_from marker (after_hidden b) bs
redact_from marker (keeping (suc n)) (b ∷ bs) = b ∷ redact_from marker (keeping n) bs

unfoldable pub redact_marker : List ℕ → List ℕ → List ℕ
unfolding redact_from
redact_marker marker bytes = redact_from marker searching bytes

unfoldable pub redact_identity_serial_fields : List ℕ → List ℕ
unfolding redact_marker
redact_identity_serial_fields bytes =
    redact_marker (text "SERIALNUMBER:") (redact_marker (text "SN:") bytes)

-- The value at the front is hidden: only `X` up to its semicolon, or to the end.
unfoldable pub is_hidden : List ℕ → Bool
is_hidden [] = true
is_hidden (b ∷ bs) = b == b';' || (b == b'X' && is_hidden bs)

-- Behind every place where the marker stands, in letters of either case, the value is hidden.
unfoldable pub all_hidden : List ℕ → List ℕ → Bool
unfolding starts_with_letters is_hidden
all_hidden marker [] = true
all_hidden marker (b ∷ bs) =
    (not (starts_with_letters (b ∷ bs) marker) || is_hidden (drop (length marker) (b ∷ bs)))
    && all_hidden marker bs

redact_from-length :
    (marker : List ℕ) (scan : Scan) (bs : List ℕ) → length (redact_from marker scan bs) ≡ length bs
unfolding redact_from
redact_from-length marker scan [] = refl
redact_from-length marker searching (b ∷ bs) =
    ap suc (redact_from-length marker (after_search marker (b ∷ bs)) bs)
redact_from-length marker (keeping zero) (b ∷ bs) =
    ap suc (redact_from-length marker (after_hidden b) bs)
redact_from-length marker (keeping (suc n)) (b ∷ bs) =
    ap suc (redact_from-length marker (keeping n) bs)

-- No letter of the marker is an X.
abbrev NoX : List ℕ → Type 0
NoX = All (λ c. same_letter b'X' c ≡ false)

-- Redaction makes no marker appear.
redact_from-starts :
    (marker : List ℕ) (scan : Scan) (bs p : List ℕ)
    → NoX p
    → starts_with_letters (redact_from marker scan bs) p ≡ true
    → starts_with_letters bs p ≡ true
unfolding redact_from starts_with_letters
redact_from-starts marker scan [] p h eq = eq
redact_from-starts marker scan (b ∷ bs) [] h eq = refl
redact_from-starts marker searching (b ∷ bs) (c ∷ cs) h eq =
    ground (arith, redact_from-starts marker (after_search marker (b ∷ bs)) bs cs h.1)
redact_from-starts marker (keeping zero) (b ∷ bs) (c ∷ cs) h eq =
    ground (arith, redact_from-starts marker (after_hidden b) bs cs h.1)
redact_from-starts marker (keeping (suc n)) (b ∷ bs) (c ∷ cs) h eq =
    ground (arith, redact_from-starts marker (keeping n) bs cs h.1)

-- What is hidden stays hidden.
redact_from-is_hidden :
    (marker : List ℕ) (scan : Scan) (bs : List ℕ)
    → is_hidden bs ≡ true
    → is_hidden (redact_from marker scan bs) ≡ true
unfolding redact_from is_hidden
redact_from-is_hidden marker scan [] h = refl
redact_from-is_hidden marker searching (b ∷ bs) h =
    ground (arith, redact_from-is_hidden marker (after_search marker (b ∷ bs)) bs)
redact_from-is_hidden marker (keeping zero) (b ∷ bs) h =
    ground (arith, redact_from-is_hidden marker (after_hidden b) bs)
redact_from-is_hidden marker (keeping (suc n)) (b ∷ bs) h =
    ground (arith, redact_from-is_hidden marker (keeping n) bs)

-- A value that is being hidden is hidden.
hiding-is_hidden : (marker bs : List ℕ) → is_hidden (redact_from marker (keeping 0) bs) ≡ true
unfolding redact_from is_hidden
hiding-is_hidden marker [] = refl
hiding-is_hidden marker (b ∷ bs) = ground (arith, hiding-is_hidden marker bs)

-- While the rest of a marker is copied, nothing is hidden yet, and then the value is.
kept-is_hidden :
    (marker : List ℕ) (n : ℕ) (bs : List ℕ)
    → is_hidden (drop n (redact_from marker (keeping n) bs)) ≡ true
unfolding redact_from is_hidden
kept-is_hidden marker zero bs = hiding-is_hidden marker bs
kept-is_hidden marker (suc n) [] = refl
kept-is_hidden marker (suc n) (b ∷ bs) = kept-is_hidden marker n bs

drop-is_hidden :
    (marker : List ℕ) (k : ℕ) (scan : Scan) (bs : List ℕ)
    → is_hidden (drop k bs) ≡ true
    → is_hidden (drop k (redact_from marker scan bs)) ≡ true
unfolding redact_from is_hidden
drop-is_hidden marker zero scan bs h = redact_from-is_hidden marker scan bs h
drop-is_hidden marker (suc k) scan [] h = refl
drop-is_hidden marker (suc k) searching (b ∷ bs) h =
    drop-is_hidden marker k (after_search marker (b ∷ bs)) bs h
drop-is_hidden marker (suc k) (keeping zero) (b ∷ bs) h =
    drop-is_hidden marker k (after_hidden b) bs h
drop-is_hidden marker (suc k) (keeping (suc n)) (b ∷ bs) h =
    drop-is_hidden marker k (keeping n) bs h

-- The letters of a marker behind its first are others, and it has neither an X nor a semicolon.
abbrev Differs : ℕ → List ℕ → Type 0
Differs m = All (λ c. same_letter c m ≡ false)

-- The bytes that are still to be copied are letters of the marker behind its first.
abbrev Follows : ℕ → Scan → List ℕ → Type 0
Follows m searching bs = Unit {0}
Follows m (keeping n) bs =
    (cs : List ℕ) × (length cs ≡ n) × (starts_with_letters bs cs ≡ true) × Differs m cs

all_hidden-step :
    (p : List ℕ) (b : ℕ) (bs : List ℕ)
    → (starts_with_letters (b ∷ bs) p ≡ true → is_hidden (drop (length p) (b ∷ bs)) ≡ true)
    → all_hidden p bs ≡ true
    → all_hidden p (b ∷ bs) ≡ true
unfolding all_hidden
all_hidden-step p b bs here rest = elim (Bool-cases (starts_with_letters (b ∷ bs) p)) [
  | inl h ↦ rw (h, here h, rest) refl
  | inr h ↦ rw (h, rest) refl
]

all_hidden-head :
    (p : List ℕ) (b : ℕ) (bs : List ℕ)
    → all_hidden p (b ∷ bs) ≡ true
    → starts_with_letters (b ∷ bs) p ≡ true
    → is_hidden (drop (length p) (b ∷ bs)) ≡ true
unfolding all_hidden
all_hidden-head p b bs h st = ground arith

all_hidden-rest :
    (p : List ℕ) (b : ℕ) (bs : List ℕ) → all_hidden p (b ∷ bs) ≡ true → all_hidden p bs ≡ true
unfolding all_hidden
all_hidden-rest p b bs h = ground arith

-- Another letter than its first begins no marker.
other_letter :
    (m b : ℕ) (ms bs : List ℕ)
    → same_letter b m ≡ false
    → starts_with_letters (b ∷ bs) (m ∷ ms) ≢ true
unfolding starts_with_letters same_letter
other_letter m b ms bs h st = ground arith

hidden_byte-other :
    (m b : ℕ)
    → same_letter b'X' m ≡ false
    → same_letter b';' m ≡ false
    → same_letter (hidden_byte b) m ≡ false
hidden_byte-other m b x s = elim (Bool-cases (b == b';')) [
  | inl h ↦ rw ((==_iff b b';').0 h) s
  | inr h ↦ rw h x
]

starts-rest :
    (b : ℕ) (bs : List ℕ) (c : ℕ) (cs : List ℕ)
    → starts_with_letters (b ∷ bs) (c ∷ cs) ≡ true
    → starts_with_letters bs cs ≡ true
unfolding starts_with_letters
starts-rest b bs c cs h = ground arith

starts-letter :
    (b : ℕ) (bs : List ℕ) (c : ℕ) (cs : List ℕ) (m : ℕ)
    → starts_with_letters (b ∷ bs) (c ∷ cs) ≡ true
    → same_letter c m ≡ false
    → same_letter b m ≡ false
unfolding starts_with_letters same_letter
starts-letter b bs c cs m h d = ground arith

Follows-after_hidden : (m b : ℕ) (bs : List ℕ) → Follows m (after_hidden b) bs
unfolding starts_with_letters
Follows-after_hidden m b bs = elim (Bool-cases (b == b';')) [
  | inl h ↦ rw h tt
  | inr h ↦ rw h ([], refl, refl, tt)
]

all_hidden-nothing : (p : List ℕ) → all_hidden p [] ≡ true
unfolding all_hidden
all_hidden-nothing p = refl

after_search-found :
    (m : ℕ) (ms bs : List ℕ)
    → starts_with_letters bs (m ∷ ms) ≡ true
    → after_search (m ∷ ms) bs ≡ keeping (length ms)
unfolding after_search
after_search-found m ms bs h = rw h (ap keeping (omega arith))

redact_from-found :
    (m : ℕ) (ms : List ℕ) (b : ℕ) (bs : List ℕ)
    → starts_with_letters (b ∷ bs) (m ∷ ms) ≡ true
    → redact_from (m ∷ ms) searching (b ∷ bs) ≡ b ∷ redact_from (m ∷ ms) (keeping (length ms)) bs
unfolding redact_from
redact_from-found m ms b bs h =
    ap (λ scan. b ∷ redact_from (m ∷ ms) scan bs) (after_search-found m ms (b ∷ bs) h)

redact_from-absent :
    (marker : List ℕ) (b : ℕ) (bs : List ℕ)
    → starts_with_letters (b ∷ bs) marker ≡ false
    → redact_from marker searching (b ∷ bs) ≡ b ∷ redact_from marker searching bs
unfolding redact_from
redact_from-absent marker b bs h = rw h refl

no_start :
    (marker : List ℕ) (b : ℕ) (bs : List ℕ)
    → NoX marker
    → starts_with_letters (b ∷ bs) marker ≡ false
    → starts_with_letters (b ∷ redact_from marker searching bs) marker ≢ true
no_start marker b bs x h st = false≢true (
    sym h
    ∙ redact_from-starts marker searching (b ∷ bs) marker x
        (rw (redact_from-absent marker b bs h) st))

redact_from-all_hidden :
    (m : ℕ) (ms : List ℕ) (scan : Scan) (bs : List ℕ)
    → Differs m ms
    → NoX (m ∷ ms)
    → same_letter b';' m ≡ false
    → Follows m scan bs
    → all_hidden (m ∷ ms) (redact_from (m ∷ ms) scan bs) ≡ true
unfolding redact_from
redact_from-all_hidden m ms scan [] d x s f = all_hidden-nothing (m ∷ ms)
redact_from-all_hidden m ms searching (b ∷ bs) d x s f =
    elim (Bool-cases (starts_with_letters (b ∷ bs) (m ∷ ms))) [
      | inl h ↦ rw (redact_from-found m ms b bs h) (
          all_hidden-step (m ∷ ms) b (redact_from (m ∷ ms) (keeping (length ms)) bs)
            (λ st. kept-is_hidden (m ∷ ms) (length ms) bs)
            (redact_from-all_hidden m ms (keeping (length ms)) bs d x s
              (ms, refl, starts-rest b bs m ms h, d)))
      | inr h ↦ rw (redact_from-absent (m ∷ ms) b bs h) (
          all_hidden-step (m ∷ ms) b (redact_from (m ∷ ms) searching bs)
            (λ st. absurd (no_start (m ∷ ms) b bs x h st))
            (redact_from-all_hidden m ms searching bs d x s tt))
    ]
redact_from-all_hidden m ms (keeping zero) (b ∷ bs) d x s f =
    all_hidden-step (m ∷ ms) (hidden_byte b) (redact_from (m ∷ ms) (after_hidden b) bs)
      (λ st. absurd (other_letter m (hidden_byte b) ms _ (hidden_byte-other m b x.0 s) st))
      (redact_from-all_hidden m ms (after_hidden b) bs d x s (Follows-after_hidden m b bs))
redact_from-all_hidden m ms (keeping (suc n)) (b ∷ bs) d x s ([], eq, st, ds) = absurd (omega arith)
redact_from-all_hidden m ms (keeping (suc n)) (b ∷ bs) d x s (c ∷ cs, eq, st, ds) =
    all_hidden-step (m ∷ ms) b (redact_from (m ∷ ms) (keeping n) bs)
      (λ st'. absurd (other_letter m b ms _ (starts-letter b bs c cs m st ds.0) st'))
      (redact_from-all_hidden m ms (keeping n) bs d x s
        (cs, omega arith, starts-rest b bs c cs st, ds.1))

redact_from-step :
    (marker p : List ℕ) (scan : Scan) (b : ℕ) (bs : List ℕ) (b' : ℕ) (next : Scan)
    → NoX p
    → all_hidden p (b ∷ bs) ≡ true
    → redact_from marker scan (b ∷ bs) ≡ b' ∷ redact_from marker next bs
    → all_hidden p (redact_from marker next bs) ≡ true
    → all_hidden p (redact_from marker scan (b ∷ bs)) ≡ true
redact_from-step marker p scan b bs b' next x h eq rest = rw eq (
    all_hidden-step p b' (redact_from marker next bs)
      (λ st. rw (sym eq) (
        drop-is_hidden marker (length p) scan (b ∷ bs)
          (all_hidden-head p b bs h (redact_from-starts marker scan (b ∷ bs) p x (rw eq st)))))
      rest)

-- A pass for another marker leaves hidden what was.
redact_from-keeps :
    (marker : List ℕ) (p : List ℕ) (scan : Scan) (bs : List ℕ)
    → NoX p
    → all_hidden p bs ≡ true
    → all_hidden p (redact_from marker scan bs) ≡ true
unfolding redact_from
redact_from-keeps marker p scan [] x h = all_hidden-nothing p
redact_from-keeps marker p searching (b ∷ bs) x h =
    redact_from-step marker p searching b bs b (after_search marker (b ∷ bs)) x h refl
      (redact_from-keeps marker p (after_search marker (b ∷ bs)) bs x (all_hidden-rest p b bs h))
redact_from-keeps marker p (keeping zero) (b ∷ bs) x h =
    redact_from-step marker p (keeping zero) b bs (hidden_byte b) (after_hidden b) x h refl
      (redact_from-keeps marker p (after_hidden b) bs x (all_hidden-rest p b bs h))
redact_from-keeps marker p (keeping (suc n)) (b ∷ bs) x h =
    redact_from-step marker p (keeping (suc n)) b bs b (keeping n) x h refl
      (redact_from-keeps marker p (keeping n) bs x (all_hidden-rest p b bs h))

redact_identity_serial_fields-length :
    (bytes : List ℕ) → length (redact_identity_serial_fields bytes) ≡ length bytes
unfolding redact_identity_serial_fields
redact_identity_serial_fields-length bytes =
    redact_from-length (text "SERIALNUMBER:") searching (redact_marker (text "SN:") bytes)
    ∙ redact_from-length (text "SN:") searching bytes

NoX-in_sn : NoX (text "SN:")
unfolding same_letter
NoX-in_sn = (refl, (refl, (refl, tt)))

Differs-in_sn : Differs b'S' (text "N:")
unfolding same_letter
Differs-in_sn = (refl, (refl, tt))

NoX-in_serialnumber : NoX (text "SERIALNUMBER:")
unfolding same_letter
NoX-in_serialnumber = (
  refl,
  (
    refl,
    (refl, (refl, (refl, (refl, (refl, (refl, (refl, (refl, (refl, (refl, (refl, tt))))))))))),
  ),
)

Differs-in_serialnumber : Differs b'S' (text "ERIALNUMBER:")
unfolding same_letter
Differs-in_serialnumber = (
  refl,
  (refl, (refl, (refl, (refl, (refl, (refl, (refl, (refl, (refl, (refl, (refl, tt))))))))))),
)

-- After `redact_identity_serial_fields` the buffer is as long as it was, and wherever it has `SN:` or
-- `SERIALNUMBER:`, in letters of either case, only the byte `X` stands behind, up to the next
-- semicolon or the end.
pub redact_identity_serial_fields-hides :
    (bytes : List ℕ)
    → (length (redact_identity_serial_fields bytes) ≡ length bytes)
      × (all_hidden (text "SN:") (redact_identity_serial_fields bytes) ≡ true)
      × (all_hidden (text "SERIALNUMBER:") (redact_identity_serial_fields bytes) ≡ true)
unfolding redact_identity_serial_fields
redact_identity_serial_fields-hides bytes = (
  redact_identity_serial_fields-length bytes,
  redact_from-keeps (text "SERIALNUMBER:") (text "SN:") searching (redact_marker (text "SN:") bytes)
      NoX-in_sn
      (redact_from-all_hidden b'S' (text "N:") searching bytes Differs-in_sn NoX-in_sn refl tt),
  redact_from-all_hidden b'S' (text "ERIALNUMBER:") searching (redact_marker (text "SN:") bytes)
      Differs-in_serialnumber NoX-in_serialnumber refl tt,
)
