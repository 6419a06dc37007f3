-- ===== src/Base/Bytes.antt =====
-- Bytes and 16-bit words as numbers, their two byte orders, and the masks that the code applies.
use reink_rust.Base.{ℕ}
use Prim.Native.Nat.{ℕ, zero, suc, ◌+◌, ◌*◌, ◌/◌, ◌%◌, ◌<◌, bit_and}
use mathlib.Core.Path.{◌≡◌, refl}
use mathlib.Core.Bool.{Bool, true, false, ◌&&◌}
use mathlib.Core.List.{List, [], ◌∷◌}
use native.Mathlib.Omega.{arith}
use reink_rust.Base.Tests.{◌==◌, ltb}

abbrev pub IsByte : ℕ → Type 0
IsByte b = b < 256

abbrev pub IsU16 : ℕ → Type 0
IsU16 v = v < 65536

-- `u16::to_be_bytes` and `u16::to_le_bytes`.
abbrev pub to_be_bytes : ℕ → List ℕ
to_be_bytes v = v / 256 ∷ v % 256 ∷ []

abbrev pub to_le_bytes : ℕ → List ℕ
to_le_bytes v = v % 256 ∷ v / 256 ∷ []

abbrev pub from_be_bytes : ℕ → ℕ → ℕ
from_be_bytes hi lo = hi * 256 + lo

-- A table: a test is run at every number below a bound, from the largest one down.
unfoldable pub holds_below : (ℕ → Bool) → ℕ → Bool
holds_below test zero = true
holds_below test (suc bound) = holds_below test bound && test bound

pub holds_below-at :
    (test : ℕ → Bool) {bound : ℕ} (v : ℕ)
    → v < bound
    → holds_below test bound ≡ true
    → test v ≡ true
unfolding holds_below
holds_below-at test {bound = zero} v small table = absurd (omega arith)
holds_below-at test {bound = suc bound} v small table =
    ground (arith, holds_below-at test {bound = bound} v)

abbrev bool_eq : Bool → Bool → Bool
bool_eq true b = b
bool_eq false true = false
bool_eq false false = true

bool_eq→eq : (a b : Bool) → bool_eq a b ≡ true → a ≡ b
bool_eq→eq a b h = ground arith

reserved_table : holds_below (λ c. bool_eq (bit_and c 0xfc == 0) (ltb c 4)) 256 ≡ true
unfolding holds_below
reserved_table = refl

-- `control & !0x03` is zero on the bytes below four only.
pub reserved_bits : (c : ℕ) → c < 256 → (bit_and c 0xfc == 0) ≡ ltb c 4
reserved_bits c h = bool_eq→eq _ _ (holds_below-at _ c h reserved_table)
