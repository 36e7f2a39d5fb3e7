-- ===== src/Prelude/Words.antt =====
-- Machine integers and `std::time::Duration` as native numbers. A duration is its nanoseconds; the
-- standard library's operations keep the range by saturating, the plain operators by wrapping (as
-- a release build does).
use Prim.Native.Nat.{ℕ, ◌+◌, ◌-◌, ◌*◌, ◌/◌, ◌%◌, ◌≤◌, ◌<◌, min}
use mathlib.Core.Path.{◌≡◌}
use native.Mathlib.Omega.{arith}

abbrev pub u64_mod : ℕ
u64_mod = 18446744073709551616

abbrev pub u64_max : ℕ
u64_max = 18446744073709551615

abbrev pub u128_max : ℕ
u128_max = 340282366920938463463374607431768211455

abbrev pub nanos_per_sec : ℕ
nanos_per_sec = 1000000000

-- `Duration::MAX`, u64::MAX seconds and 999_999_999 nanoseconds.
abbrev pub duration_max : ℕ
duration_max = 18446744073709551615999999999

-- `saturating_add` of `u64` and `usize` (64 bits).
abbrev pub u64_sat_add : ℕ → ℕ → ℕ
u64_sat_add a b = min (a + b) u64_max

abbrev pub u64_sat_mul : ℕ → ℕ → ℕ
u64_sat_mul a b = min (a * b) u64_max

-- `wrapping_add`, and `+=` where it does not panic.
abbrev pub u64_add : ℕ → ℕ → ℕ
u64_add a b = (a + b) % u64_mod

abbrev pub u64_sub : ℕ → ℕ → ℕ
u64_sub a b = (a + u64_mod - b) % u64_mod

abbrev pub u64_mul : ℕ → ℕ → ℕ
u64_mul a b = a * b % u64_mod

abbrev pub u128_sat_add : ℕ → ℕ → ℕ
u128_sat_add a b = min (a + b) u128_max

abbrev pub u128_sat_mul : ℕ → ℕ → ℕ
u128_sat_mul a b = min (a * b) u128_max

abbrev pub duration_sat_add : ℕ → ℕ → ℕ
duration_sat_add a b = min (a + b) duration_max

-- `Duration::as_secs`.
abbrev pub as_secs : ℕ → ℕ
as_secs d = d / nanos_per_sec

-- A wrapped difference is the difference where nothing is borrowed.
pub u64_sub-exact : (a b : ℕ) → b ≤ a → a < u64_mod → u64_sub a b ≡ a - b
u64_sub-exact a b h r = omega arith

-- A wrapped sum is the sum where it fits.
pub u64_add-exact : (a b : ℕ) → a + b < u64_mod → u64_add a b ≡ a + b
u64_add-exact a b h = omega arith
