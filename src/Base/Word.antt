-- ===== src/Base/Word.antt =====
-- `u64` and `usize` (64-bit) arithmetic over the native numbers.
use Prim.Native.Nat.{ℕ, ◌%◌, ◌+◌, ◌-◌, ◌^◌, ◌≤◌}
use mathlib.Core.Path.{◌≡◌}
use native.Mathlib.Omega.{arith}
use roci.Base.{[], ◌*◌, ◌++◌, ◌/◌, ◌<◌, ◌∷◌}
use roci.Base.Eq.{Text, text_eq}
use roci.Base.Tests.{if◌then◌else◌, ltb}

abbrev pub word : ℕ
word = 2 ^ 64

abbrev pub u64_max : ℕ
u64_max = 2 ^ 64 - 1

-- `saturating_sub` is `-` itself.
unfoldable pub saturating_add : ℕ → ℕ → ℕ
saturating_add a b = if ltb u64_max (a + b) then u64_max else a + b

unfoldable pub wrapping_add : ℕ → ℕ → ℕ
wrapping_add a b = (a + b) % word

unfoldable pub wrapping_sub : ℕ → ℕ → ℕ
wrapping_sub a b = if ltb a b then a + word - b else a - b

pub wrapping_sub-eq-sub : (a b : ℕ) → b ≤ a → wrapping_sub a b ≡ a - b
unfolding wrapping_sub
wrapping_sub-eq-sub a b h = ground arith

pub saturating_add-eq-+ : (a b : ℕ) → a + b ≤ u64_max → saturating_add a b ≡ a + b
unfolding saturating_add
saturating_add-eq-+ a b h = ground arith

pub saturating_add-le : (a b : ℕ) → saturating_add a b ≤ a + b
unfolding saturating_add
saturating_add-le a b = ground arith

-- `n.to_le_bytes()` of a `u32`
unfoldable pub le_bytes : ℕ → Text
le_bytes n = n % 256 ∷ n / 256 % 256 ∷ n / 65536 % 256 ∷ n / 16777216 % 256 ∷ []

-- `u32::from_le_bytes` of the first four bytes
unfoldable pub from_le : Text → ℕ
from_le (a ∷ b ∷ c ∷ d ∷ s) = a + 256 * b + 65536 * c + 16777216 * d
from_le _ = 0

pub from_le-le_bytes : (n : ℕ) (s : Text) → n < 2 ^ 32 → from_le (le_bytes n ++ s) ≡ n
unfolding le_bytes from_le
from_le-le_bytes n s h = omega arith
