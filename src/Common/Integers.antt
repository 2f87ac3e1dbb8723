-- ===== src/Common/Integers.antt =====
-- Signed integers, for database ids where the code marks a missing one by -1.
use Prim.Native.Nat.{ℕ}

-- `negsuc n` is -(n + 1).
pub data ℤ : Type 0 where
  pos : ℕ → ℤ
  negsuc : ℕ → ℤ
