-- ===== src/Base/Int.antt =====
-- Signed numbers, and the cast of a 64-bit number to 32 bits.
use Prim.Native.Nat.{ℕ, ◌-◌, ◌%◌, ◌^◌}
use allgres_agent.Base.Tests.{ltb, if◌then◌else◌}

-- `negsuc n` is -(n + 1).
pub data ℤ : Type 0 where
  pos : ℕ → ℤ
  negsuc : ℕ → ℤ

-- The bit pattern of the low 32 bits.
unfoldable pub low_u32 : ℤ → ℕ
low_u32 (pos n) = n % 2 ^ 32
low_u32 (negsuc n) = 2 ^ 32 - 1 - n % 2 ^ 32

-- `n as i32`.
unfoldable pub as_i32 : ℤ → ℤ
unfolding low_u32
as_i32 z = let u = low_u32 z in if ltb u (2 ^ 31) then pos u else negsuc (2 ^ 32 - 1 - u)
