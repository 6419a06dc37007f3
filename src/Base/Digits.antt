-- ===== src/Base/Digits.antt =====
-- `from_str_radix` and `parse` of unsigned integers: an optional plus sign, then digits; the value must
-- stay below the limit at every digit, as the checked arithmetic of the library does.
use reink_rust.Base.Text.{within}
use reink_rust.Base.{
  List, Option, Option-cases, [], arith, if◌then◌else◌, inl, inr, ltb, none, some, ◌*◌, ◌+◌, ◌-◌,
  ◌<◌, ◌==◌, ◌||◌, ◌∷◌, ◌≡◌, ℕ,
}

abbrev pub digit : ℕ → ℕ → Option ℕ
digit radix c =
    let value =
      (if within b'0' b'9' c
        then c - b'0'
        else if within b'a' b'z' c
        then c - b'a' + 10
        else if within b'A' b'Z' c
        then c - b'A' + 10
        else radix) in
    if ltb value radix then some value else none

-- The digits from a value read so far.
unfoldable pub digits_from : ℕ → ℕ → ℕ → List ℕ → Option ℕ
digits_from radix limit value [] = some value
digits_from radix limit value (c ∷ cs) = elim (digit radix c) [
  | none ↦ none
  | some d ↦
      if ltb (value * radix + d) limit then digits_from radix limit (value * radix + d) cs else none
]

unfoldable pub from_str_radix : ℕ → ℕ → List ℕ → Option ℕ
unfolding digits_from
from_str_radix radix limit [] = none
from_str_radix radix limit (c ∷ []) =
    if c == b'+' || c == b'-' then none else digits_from radix limit 0 (c ∷ [])
from_str_radix radix limit (c ∷ d ∷ cs) =
    if c == b'+' then digits_from radix limit 0 (d ∷ cs) else digits_from radix limit 0 (c ∷ d ∷ cs)

-- `parse::<u16>()` and `parse::<u64>()`.
unfoldable pub parse_u16 : List ℕ → Option ℕ
unfolding from_str_radix
parse_u16 = from_str_radix 10 0x10000

unfoldable pub parse_u64 : List ℕ → Option ℕ
unfolding from_str_radix
parse_u64 = from_str_radix 10 0x10000000000000000

digits_from-lt :
    (radix limit value : ℕ) (cs : List ℕ) (n : ℕ)
    → value < limit
    → digits_from radix limit value cs ≡ some n
    → n < limit
unfolding digits_from
digits_from-lt radix limit value [] n h eq = ground arith
digits_from-lt radix limit value (c ∷ cs) n h eq = elim (Option-cases (digit radix c)) [
  | inl bad ↦ absurd (ground (arith, bad))
  | inr (d, good) ↦ ground (arith, good, digits_from-lt radix limit (value * radix + d) cs n)
]

pub parse_u16-lt : (s : List ℕ) (n : ℕ) → parse_u16 s ≡ some n → n < 0x10000
unfolding parse_u16 from_str_radix
parse_u16-lt [] n eq = absurd (ground arith)
parse_u16-lt (c ∷ []) n eq = ground (arith, digits_from-lt 10 0x10000 0 (c ∷ []) n)
parse_u16-lt (c ∷ d ∷ cs) n eq =
    ground
      (arith, digits_from-lt 10 0x10000 0 (d ∷ cs) n, digits_from-lt 10 0x10000 0 (c ∷ d ∷ cs) n)
