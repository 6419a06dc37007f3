-- ===== src/Base/Text.antt =====
-- Text as the list of its UTF-8 bytes: what the code uses of `str`.
use reink_rust.Base.{ap, ◌*◌, ◌-◌, String, arith, refl, ◌≡◌, ℕ}
use Prim.Native.Char.{code}
use Prim.Native.String
use Prim.Native.Nat.{ℕ, zero, suc, ◌+◌}
use mathlib.Core.Bool.{Bool, true, false, not, ◌&&◌, ◌||◌}
use mathlib.Core.Option.{Option, none, some}
use mathlib.Core.List.{List, [], ◌∷◌}
use reink_rust.Base.Lists.{length, drop}
use reink_rust.Base.Tests.{leb, ltb, ◌==◌, if◌then◌else◌}

-- A continuation byte, and a byte of a range.
abbrev pub within : ℕ → ℕ → ℕ → Bool
within lo hi b = leb lo b && leb b hi

abbrev pub is_continuation : ℕ → Bool
is_continuation b = within 0x80 0xbf b

abbrev three_bytes : ℕ → ℕ → ℕ → Bool
three_bytes a b c =
    is_continuation c
    && ((a == 0xe0 && within 0xa0 0xbf b)
        || ((within 0xe1 0xec a || within 0xee 0xef a) && is_continuation b)
        || (a == 0xed && within 0x80 0x9f b))

abbrev four_bytes : ℕ → ℕ → ℕ → ℕ → Bool
four_bytes a b c d =
    is_continuation c
    && is_continuation d
    && ((a == 0xf0 && within 0x90 0xbf b)
        || (within 0xf1 0xf3 a && is_continuation b)
        || (a == 0xf4 && within 0x80 0x8f b))

-- `str::from_utf8` succeeds: the table of well-formed sequences.
unfoldable pub is_utf8 : List ℕ → Bool
is_utf8 [] = true
is_utf8 (a ∷ []) = ltb a 0x80
is_utf8 (a ∷ b ∷ []) = (ltb a 0x80 && is_utf8 (b ∷ [])) || (within 0xc2 0xdf a && is_continuation b)
is_utf8 (a ∷ b ∷ c ∷ []) =
    (ltb a 0x80 && is_utf8 (b ∷ c ∷ []))
    || (within 0xc2 0xdf a && is_continuation b && is_utf8 (c ∷ []))
    || three_bytes a b c
is_utf8 (a ∷ b ∷ c ∷ d ∷ rest) =
    (ltb a 0x80 && is_utf8 (b ∷ c ∷ d ∷ rest))
    || (within 0xc2 0xdf a && is_continuation b && is_utf8 (c ∷ d ∷ rest))
    || (three_bytes a b c && is_utf8 (d ∷ rest))
    || (four_bytes a b c d && is_utf8 rest)

-- `str::is_char_boundary`.
abbrev pub boundary_at : List ℕ → Bool
boundary_at [] = true
boundary_at (b ∷ bs) = not (is_continuation b)

unfoldable pub is_char_boundary : List ℕ → ℕ → Bool
is_char_boundary s zero = true
is_char_boundary s (suc i) = leb (suc i) (length s) && boundary_at (drop (suc i) s)

unfoldable pub starts_with : List ℕ → List ℕ → Bool
starts_with s [] = true
starts_with [] (p ∷ ps) = false
starts_with (b ∷ bs) (p ∷ ps) = b == p && starts_with bs ps

-- `str::find` of a text.
unfoldable pub find : List ℕ → List ℕ → Option ℕ
unfolding starts_with
find [] p = if starts_with [] p then some 0 else none
find (b ∷ bs) p =
    if starts_with (b ∷ bs) p
    then some 0
    else elim (find bs p) [ none ↦ none | some i ↦ some (suc i) ]

unfoldable pub contains : List ℕ → List ℕ → Bool
unfolding find
contains s p = elim (find s p) [ none ↦ false | some _ ↦ true ]

abbrev pub lowercase_byte : ℕ → ℕ
lowercase_byte b = if within b'A' b'Z' b then b + 32 else b

-- `str::to_ascii_lowercase`
unfoldable pub to_ascii_lowercase : List ℕ → List ℕ
to_ascii_lowercase [] = []
to_ascii_lowercase (b ∷ bs) = lowercase_byte b ∷ to_ascii_lowercase bs

-- The bytes of an ASCII literal.
abbrev pub text : String.String → List ℕ
text String.[] = []
text (String.◌∷◌ c s) = code c ∷ text s

-- `==` of two texts.
unfoldable pub same : List ℕ → List ℕ → Bool
same [] [] = true
same (a ∷ as') (b ∷ bs) = a == b && same as' bs
same _ _ = false

pub same→eq : (s t : List ℕ) → same s t ≡ true → s ≡ t
unfolding same
same→eq [] [] h = refl
same→eq [] (b ∷ bs) h = absurd (ground arith)
same→eq (a ∷ as') [] h = absurd (ground arith)
same→eq (a ∷ as') (b ∷ bs) h = ground (arith, same→eq as' bs)

pub same_refl : (s : List ℕ) → same s s ≡ true
unfolding same
same_refl [] = refl
same_refl (b ∷ bs) = ground (arith, same_refl bs)

pub eq→same : (s t : List ℕ) → s ≡ t → same s t ≡ true
eq→same s t h = rw (h, same_refl t) refl

-- `str::is_ascii`
unfoldable pub is_ascii : List ℕ → Bool
is_ascii [] = true
is_ascii (b ∷ bs) = ltb b 0x80 && is_ascii bs

-- `str::is_empty`
abbrev pub is_empty : List ℕ → Bool
is_empty [] = true
is_empty (b ∷ bs) = false

-- `str::strip_prefix`
unfoldable pub strip_prefix : List ℕ → List ℕ → Option (List ℕ)
strip_prefix s [] = some s
strip_prefix [] (p ∷ ps) = none
strip_prefix (b ∷ bs) (p ∷ ps) = if b == p then strip_prefix bs ps else none

-- `str::strip_suffix`: the last place where the rest of the text is the suffix.
unfoldable pub strip_suffix : List ℕ → List ℕ → Option (List ℕ)
unfolding same
strip_suffix [] p = if is_empty p then some [] else none
strip_suffix (b ∷ bs) p = elim (strip_suffix bs p) [
  | some front ↦ some (b ∷ front)
  | none ↦ if same (b ∷ bs) p then some [] else none
]

-- `str::chars`, as code points, of well-formed UTF-8: by the lead byte.
unfoldable pub chars : List ℕ → List ℕ
chars [] = []
chars (a ∷ []) = a ∷ []
chars (a ∷ b ∷ []) = if ltb a 0x80 then a ∷ chars (b ∷ []) else ((a - 0xc0) * 64 + (b - 0x80)) ∷ []
chars (a ∷ b ∷ c ∷ []) =
    if ltb a 0x80
    then a ∷ chars (b ∷ c ∷ [])
    else if ltb a 0xe0
    then ((a - 0xc0) * 64 + (b - 0x80)) ∷ chars (c ∷ [])
    else ((a - 0xe0) * 4096 + (b - 0x80) * 64 + (c - 0x80)) ∷ []
chars (a ∷ b ∷ c ∷ d ∷ rest) =
    if ltb a 0x80
    then a ∷ chars (b ∷ c ∷ d ∷ rest)
    else if ltb a 0xe0
    then ((a - 0xc0) * 64 + (b - 0x80)) ∷ chars (c ∷ d ∷ rest)
    else if ltb a 0xf0
    then ((a - 0xe0) * 4096 + (b - 0x80) * 64 + (c - 0x80)) ∷ chars (d ∷ rest)
    else ((a - 0xf0) * 262144 + (b - 0x80) * 4096 + (c - 0x80) * 64 + (d - 0x80)) ∷ chars rest

pub same-length : (s t : List ℕ) → same s t ≡ true → length s ≡ length t
same-length s t h = ap length (same→eq s t h)

pub is_ascii-is_utf8 : (s : List ℕ) → is_ascii s ≡ true → is_utf8 s ≡ true
unfolding is_ascii is_utf8
is_ascii-is_utf8 [] h = refl
is_ascii-is_utf8 (a ∷ []) h = ground arith
is_ascii-is_utf8 (a ∷ b ∷ []) h = ground (arith, is_ascii-is_utf8 (b ∷ []))
is_ascii-is_utf8 (a ∷ b ∷ c ∷ []) h = ground (arith, is_ascii-is_utf8 (b ∷ c ∷ []))
is_ascii-is_utf8 (a ∷ b ∷ c ∷ d ∷ rest) h = ground (arith, is_ascii-is_utf8 (b ∷ c ∷ d ∷ rest))
