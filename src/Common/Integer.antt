-- ===== src/Common/Integer.antt =====
-- The integers over the native numbers, as far as versions need them.
use Prim.Native.Nat.{ℕ, zero, suc, ◌+◌}
use mathlib.Core.Path.{◌≡◌, ap}
use mathlib.Core.Bool.{Bool, false}
use native.Mathlib.Omega.{arith}
use taskforge_platform.Common.Tests.{nat_beq}

pub data ℤ : Type 0 where
  pos : ℕ → ℤ
  negsuc : ℕ → ℤ  -- `negsuc n` is -(n + 1)

-- `m - n` of two natural numbers.
unfoldable pub minus : ℕ → ℕ → ℤ
minus m zero = pos m
minus zero (suc n) = negsuc n
minus (suc m) (suc n) = minus m n

-- `m == z`
unfoldable pub is_pos : ℕ → ℤ → Bool
is_pos m (pos n) = nat_beq m n
is_pos m (negsuc n) = false

pub minus_total : (n k : ℕ) → minus (n + k) k ≡ pos n
unfolding minus
minus_total n zero = ap pos (omega arith)
minus_total n (suc k) = let e : n + suc k ≡ suc (n + k) = omega arith in rw e (minus_total n k)
