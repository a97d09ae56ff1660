-- ===== src/Prelude/Words.antt =====
-- Rust's machine integers: `u8`, `u64` and `u128` are natural numbers and `i64` an integer, each
-- with its range written out in the checked operations and its wrap-around in the `as` casts.
use Prim.Native.Nat.{ℕ, suc, ◌+◌, ◌-◌, ◌*◌, ◌/◌, ◌^◌}
use mathlib.Core.Bool.{Bool, ◌&&◌}
use mathlib.Core.Option.{Option, none, some}
use wagmi.Prelude.Tests.{ltb, leb, ◌==◌, if◌then◌else◌}
use wagmi.Prelude.Int.{ℤ, pos, negsuc, ◌+ℤ◌, ◌-ℤ◌, ◌≤ℤ◌, leb_ℤ}

abbrev pub u64_mod : ℕ
u64_mod = 2 ^ 64

abbrev pub u128_mod : ℕ
u128_mod = 2 ^ 128

-- `i64::MAX + 1`.
abbrev pub i64_bound : ℕ
i64_bound = 2 ^ 63

abbrev pub checked_add : ℕ → ℕ → Option ℕ
checked_add a b = if ltb (a + b) u64_mod then some (a + b) else none

abbrev pub checked_sub : ℕ → ℕ → Option ℕ
checked_sub a b = if leb b a then some (a - b) else none

abbrev pub checked_mul : ℕ → ℕ → Option ℕ
checked_mul a b = if ltb (a * b) u64_mod then some (a * b) else none

abbrev pub checked_mul_u128 : ℕ → ℕ → Option ℕ
checked_mul_u128 a b = if ltb (a * b) u128_mod then some (a * b) else none

abbrev pub checked_div : ℕ → ℕ → Option ℕ
checked_div a b = if b == 0 then none else some (a / b)

-- `u128` to `u64`, by `to_u64` of num_traits or by `try_into().ok()`.
abbrev pub narrow_u64 : ℕ → Option ℕ
narrow_u64 a = if ltb a u64_mod then some a else none

abbrev pub in_i64 : ℤ → Bool
in_i64 a = leb_ℤ (negsuc (i64_bound - 1)) a && leb_ℤ a (pos (i64_bound - 1))

abbrev pub checked_i64 : ℤ → Option ℤ
checked_i64 a = if in_i64 a then some a else none

abbrev pub checked_add_i64 : ℤ → ℤ → Option ℤ
checked_add_i64 a b = checked_i64 (a +ℤ b)

abbrev pub checked_sub_i64 : ℤ → ℤ → Option ℤ
checked_sub_i64 a b = checked_i64 (a -ℤ b)

-- `i64` to `u64` by `to_u64`: a negative value has none.
abbrev pub to_u64 : ℤ → Option ℕ
to_u64 (pos n) = some n
to_u64 (negsuc n) = none

-- `u64` to `i64` by `to_i64` or `try_into`.
abbrev pub to_i64 : ℕ → Option ℤ
to_i64 n = if ltb n i64_bound then some (pos n) else none

-- The casts `as u64` and `as i64` keep the bits.
abbrev pub as_u64 : ℤ → ℕ
as_u64 (pos n) = n
as_u64 (negsuc n) = u64_mod - suc n

abbrev pub as_i64 : ℕ → ℤ
as_i64 n = if ltb n i64_bound then pos n else negsuc (u64_mod - n - 1)

-- What an account field of type `i64` holds.
abbrev pub IsI64 : ℤ → Type 0
IsI64 a = (negsuc (i64_bound - 1) ≤ℤ a) × (a ≤ℤ pos (i64_bound - 1))
