-- ===== src/Common/Words.antt =====
-- The conversion to 32 bits.
use Prim.Native.Nat.{ℕ, ◌+◌, ◌%◌, ◌<◌}
use mathlib.Core.Path.{◌≡◌}
use native.Mathlib.Omega.{arith}

-- `u32::MAX + 1`.
unfoldable pub u32_range : ℕ
u32_range = 4294967296

-- `as u32`.
unfoldable pub as_u32 : ℕ → ℕ
as_u32 n = n % u32_range

pub as_u32-small : (n : ℕ) → n < u32_range → as_u32 n ≡ n
unfolding as_u32 u32_range
as_u32-small n h = omega (arith, h)

-- The number of the entry after `n` entries.
pub as_u32-next : (n : ℕ) → n + 1 < u32_range → as_u32 (as_u32 n + 1) ≡ n + 1
as_u32-next n h = rw (as_u32-small n (omega (arith, h))) (as_u32-small (n + 1) h)
