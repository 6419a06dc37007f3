-- ===== src/Base/Split.antt =====
-- Texts cut at a separator: `str::split`, `str::split_once` and `str::trim_start`.
use reink_rust.Base.{
  false, true, ◌<◌, ◌∙◌, refl, Bool, List, Option, [], arith, if◌then◌else◌, none, some, suc, zero,
  ◌&&◌, ◌++◌, ◌==◌, ◌||◌, ◌∷◌, ◌≡◌, ◌≢◌, ℕ,
}
use reink_rust.Base.Lists.{All}
use reink_rust.Base.Text.{is_empty, within}

abbrev pub onto_first : ℕ → List (List ℕ) → List (List ℕ)
onto_first b [] = (b ∷ []) ∷ []
onto_first b (p ∷ ps) = (b ∷ p) ∷ ps

-- `text.split(separator)`
unfoldable pub split : ℕ → List ℕ → List (List ℕ)
split separator [] = [] ∷ []
split separator (b ∷ bs) =
    let rest = split separator bs in if b == separator then [] ∷ rest else onto_first b rest

-- `text.split_once(separator)`
unfoldable pub split_once : ℕ → List ℕ → Option (List ℕ × List ℕ)
split_once separator [] = none
split_once separator (b ∷ bs) =
    if b == separator then some ([], bs) else elim (split_once separator bs) [
      | none ↦ none
      | some (before, after) ↦ some (b ∷ before, after)
    ]

-- The characters of `char::is_whitespace`, in UTF-8.
abbrev pub is_ascii_space : ℕ → Bool
is_ascii_space b = within 9 13 b || b == 32

abbrev is_space_pair : ℕ → ℕ → Bool
is_space_pair a b = a == 0xc2 && (b == 0x85 || b == 0xa0)

abbrev is_space_triple : ℕ → ℕ → ℕ → Bool
is_space_triple a b c =
    (a == 0xe1 && b == 0x9a && c == 0x80)
    || (a == 0xe2 && b == 0x80 && (within 0x80 0x8a c || within 0xa8 0xa9 c || c == 0xaf))
    || (a == 0xe2 && b == 0x81 && c == 0x9f)
    || (a == 0xe3 && b == 0x80 && c == 0x80)

-- `str::trim_start`: how many bytes of white space it finds at the front, and its loop.
abbrev space_at : List ℕ → ℕ
space_at (a ∷ b ∷ c ∷ _) =
    if is_ascii_space a
    then 1
    else if is_space_pair a b
    then 2
    else if is_space_triple a b c
    then 3
    else 0
space_at (a ∷ b ∷ []) = if is_ascii_space a then 1 else if is_space_pair a b then 2 else 0
space_at (a ∷ []) = if is_ascii_space a then 1 else 0
space_at [] = 0

-- `skip` is what is left of the character that is being skipped.
trim_from : ℕ → List ℕ → List ℕ
trim_from skip [] = []
trim_from (suc skip) (b ∷ bs) = trim_from skip bs
trim_from zero (b ∷ bs) = elim (space_at (b ∷ bs)) [ zero ↦ b ∷ bs | suc rest ↦ trim_from rest bs ]

unfoldable pub trim_start : List ℕ → List ℕ
unfolding trim_from
trim_start = trim_from 0

-- A text without this character.
abbrev pub Without : ℕ → List ℕ → Type 0
Without separator = All (λ b. b ≢ separator)

pub split_once-Without :
    (separator : ℕ) (before after : List ℕ)
    → Without separator before
    → split_once separator (before ++ separator ∷ after) ≡ some (before, after)
unfolding split_once
split_once-Without separator [] after h = ground arith
split_once-Without separator (b ∷ bs) after h =
    ground (arith, split_once-Without separator bs after h.1, h.0)

pub split-Without :
    (separator : ℕ) (before after : List ℕ)
    → Without separator before
    → split separator (before ++ separator ∷ after) ≡ before ∷ split separator after
unfolding split
split-Without separator [] after h = ground arith
split-Without separator (b ∷ bs) after h = ground (arith, split-Without separator bs after h.1, h.0)

pub split_once-none :
    (separator : ℕ) (s : List ℕ) → Without separator s → split_once separator s ≡ none
unfolding split_once
split_once-none separator [] h = refl
split_once-none separator (b ∷ bs) h = ground (arith, split_once-none separator bs h.1, h.0)

-- `str::trim_end`: cut where only white space is left. `str::trim`.
unfoldable pub trim_end : List ℕ → List ℕ
unfolding trim_start
trim_end [] = []
trim_end (b ∷ bs) = if is_empty (trim_start (b ∷ bs)) then [] else b ∷ trim_end bs

unfoldable pub trim : List ℕ → List ℕ
unfolding trim_end trim_start
trim s = trim_end (trim_start s)

trim_from-space :
    (b : ℕ) (bs : List ℕ) → is_ascii_space b ≡ true → trim_from 0 (b ∷ bs) ≡ trim_from 0 bs
unfolding trim_from
trim_from-space b [] h = ground arith
trim_from-space b (c ∷ []) h = ground arith
trim_from-space b (c ∷ d ∷ bs) h = ground arith

-- ASCII white space in front of a character that is not white space goes.
pub trim_start-spaces :
    (spaces : List ℕ) (b : ℕ) (bs : List ℕ)
    → All (λ c. is_ascii_space c ≡ true) spaces
    → is_ascii_space b ≡ false
    → b < 0x80
    → trim_start (spaces ++ b ∷ bs) ≡ b ∷ bs
unfolding trim_start trim_from
trim_start-spaces [] b [] h ink small = ground arith
trim_start-spaces [] b (c ∷ []) h ink small = ground arith
trim_start-spaces [] b (c ∷ d ∷ bs) h ink small = ground arith
trim_start-spaces (s ∷ spaces) b bs h ink small =
    trim_from-space s (spaces ++ b ∷ bs) h.0 ∙ trim_start-spaces spaces b bs h.1 ink small
