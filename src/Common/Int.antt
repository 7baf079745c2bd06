-- ===== src/Common/Int.antt =====
-- Go's `int`, where the program only compares it with small numbers: it never overflows there.
use Prim.Native.Nat.{ℕ}
use mathlib.Core.Bool.{Bool, true, false}
use nacp.Common.Tests.{ltb}

-- `negsuc n` is -(n + 1).
pub data ℤ : Type 0 where
  pos : ℕ → ℤ
  negsuc : ℕ → ℤ

-- `a < b` for a limit b that is not negative.
abbrev pub lt_ℕ : ℤ → ℕ → Bool
lt_ℕ (pos n) b = ltb n b
lt_ℕ (negsuc n) b = true

-- `a > b`
abbrev pub gt_ℕ : ℤ → ℕ → Bool
gt_ℕ (pos n) b = ltb b n
gt_ℕ (negsuc n) b = false

-- `a == 0`
abbrev pub is_zero : ℤ → Bool
is_zero (pos n) = ltb n 1
is_zero (negsuc n) = false
