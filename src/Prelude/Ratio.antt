-- ===== src/Prelude/Ratio.antt =====
-- Rounded-down shares `r * p / t`, as the programs compute them.
use Prim.Native.Nat.{ℕ, ◌*◌, ◌/◌, ◌≤◌, ◌<◌}
use native.Mathlib.Omega.{arith}
use wagmi.Prelude.Words.{u64_mod, u128_mod}
use native.Mathlib.Nat.{
  le_trans, mul-le-mul, mul-le-mul_left, div-mul-le_self, le_of_mul-le-mul_right, le-div_iff_mul-le,
}

-- A share of at most the whole is at most the amount shared.
pub share-le : (r p t : ℕ) → 0 < t → p ≤ t → r * p / t ≤ r
share-le r p t h le =
    le_of_mul-le-mul_right (le_trans (div-mul-le_self (r * p) t) (mul-le-mul_left r le)) h

-- A larger part, or a larger amount, has a larger share.
pub share_mono : (r s p q t : ℕ) → 0 < t → r ≤ s → p ≤ q → r * p / t ≤ s * q / t
share_mono r s p q t pos_t h k =
    (le-div_iff_mul-le pos_t).1 (le_trans (div-mul-le_self (r * p) t) (mul-le-mul h k))

pub share-lt : (a b t bound : ℕ) → 0 < t → b ≤ t → a < bound → a * b / t < bound
share-lt a b t bound h le lt = omega (arith, share-le a b t h le)

-- The product of two 64-bit numbers fits 128 bits.
pub product-lt : (a b : ℕ) → a < u64_mod → b ≤ u64_mod → a * b < u128_mod
product-lt a b h k = grind arith
