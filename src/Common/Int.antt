-- ===== src/Common/Int.antt =====
-- Signed integers over the native numbers, and the two's complement reading of a word.
use Prim.Native.Nat.{ℕ, ◌-◌, ◌^◌}
use mathlib.Core.Bool.{Bool, false}
use moonshine.Common.Tests.{ltb, ◌==◌, if◌then◌else◌}

-- `negsuc n` is -(n + 1).
pub data ℤ : Type 0 where
  pos : ℕ → ℤ
  negsuc : ℕ → ℤ

-- The `i16` of a 16-bit pattern.
unfoldable pub signed16 : ℕ → ℤ
signed16 w = if ltb w (2 ^ 15) then pos w else negsuc (2 ^ 16 - w - 1)

unfoldable pub ==_ℤ : ℤ → ℤ → Bool
==_ℤ (pos a) (pos b) = a == b
==_ℤ (pos a) (negsuc b) = false
==_ℤ (negsuc a) (pos b) = false
==_ℤ (negsuc a) (negsuc b) = a == b
