-- ===== src/Float.antt =====
-- Floating point as the program uses it. A finite `f32` is exactly a signed multiple of 2^-149, so
-- it is modelled whole; the `f64` operations of the processor are a parameter.
use renet_cross.Prelude.{ℕ, ◌-◌, ◌*◌, ◌/◌, ◌^◌, ◌+◌, max, Bool, true, false, not, Option, some}
use renet_cross.Prelude.{◌&&◌, ◌||◌, leb, ltb, ◌==◌, nanos_per_sec}

pub data F32 : Type 0 where
  nan : F32
  infinite : Bool → F32
  -- the sign, true if negative, and the magnitude in units of 2^-149
  finite : Bool → ℕ → F32

abbrev pub f32_one : ℕ
f32_one = 2 ^ 149

abbrev pub is_finite : F32 → Bool
is_finite (finite negative units) = true
is_finite _ = false

-- `(0.0..=1.0).contains(&x)`; the negative zero is in the range.
abbrev pub in_unit_range : F32 → Bool
in_unit_range nan = false
in_unit_range (infinite negative) = false
in_unit_range (finite negative units) = (not negative || units == 0) && leb units f32_one

-- The `f64` arithmetic, and the conversions of `std::time::Duration` (in nanoseconds) to and from it.
pub record F64 : Type 1 where
  pub Number : Type 0
  pub of_u64 : ℕ → Number
  pub of_f32 : F32 → Number
  pub add : Number → Number → Number
  pub sub : Number → Number → Number
  pub mul : Number → Number → Number
  pub div : Number → Number → Number
  pub maximum : Number → Number → Number
  pub lt : Number → Number → Bool
  -- `Duration::as_secs_f64`, `Duration::try_from_secs_f64` and `Duration::mul_f64`
  pub as_secs_f64 : ℕ → Number
  pub try_from_secs_f64 : Number → Option ℕ
  pub mul_f64 : ℕ → Number → ℕ

-- Fixed point in units of 1e-9 without negative values: the parameter that the tests use.
abbrev pub fixed_point : F64
fixed_point = record {
  Number = ℕ;
  of_u64 = λ n. n * nanos_per_sec;
  of_f32 = fixed_of_f32;
  add = λ a b. a + b;
  sub = λ a b. a - b;
  mul = λ a b. a * b / nanos_per_sec;
  div = λ a b. a * nanos_per_sec / b;
  maximum = max;
  lt = ltb;
  as_secs_f64 = λ d. d;
  try_from_secs_f64 = λ a. some a;
  mul_f64 = λ d a. d * a / nanos_per_sec;
}
  where
    fixed_of_f32 : F32 → ℕ
    fixed_of_f32 (finite negative units) = units * nanos_per_sec / 2 ^ 149
    fixed_of_f32 _ = 0
