-- ===== src/Cosmwasm.antt =====
-- What the contracts use of the crate `cosmwasm_std` for numbers. A `Decimal256` is written by its
-- atomics (units of 10^-18), a `Uint256`, `Uint128`, `u128` or `u64` by its value, a `Timestamp` by its
-- nanoseconds, and `none` is the error of a checked operation or the panic of one that is not checked.
pub mod Laws
use democratized_prime_smart.Prelude.{
  Option, checked_from_ratio, if◌then◌else◌, leb, ltb, none, some, ℕ, ◌%◌, ◌*◌, ◌+◌, ◌-◌, ◌/◌, ◌==◌,
  ◌^◌, ◌≡◌,
}

-- `Decimal256::one()`
abbrev pub decimal_one : ℕ
decimal_one = 1_000_000_000_000_000_000

-- `u128::MAX` and `Uint256::MAX`, plus one.
abbrev pub u128_size : ℕ
u128_size = 2 ^ 128

abbrev pub u256_size : ℕ
u256_size = 2 ^ 256

pub record Cosmwasm : Type 0 where
  pub checked_add : ℕ → ℕ → Option ℕ
  pub checked_sub : ℕ → ℕ → Option ℕ
  pub checked_mul : ℕ → ℕ → Option ℕ
  pub checked_div : ℕ → ℕ → Option ℕ
  pub saturating_sub : ℕ → ℕ → ℕ
  pub from_ratio : ℕ → ℕ → Option ℕ
  pub checked_from_ratio : ℕ → ℕ → Option ℕ
  pub from_atomics : ℕ → ℕ → Option ℕ
  pub uint_checked_add : ℕ → ℕ → Option ℕ
  pub uint_checked_mul : ℕ → ℕ → Option ℕ
  pub uint_checked_div : ℕ → ℕ → Option ℕ
  pub uint_checked_rem : ℕ → ℕ → Option ℕ
  pub uint_checked_pow : ℕ → ℕ → Option ℕ
  pub uint128_checked_add : ℕ → ℕ → Option ℕ
  pub uint128_checked_sub : ℕ → ℕ → Option ℕ
  pub seconds : ℕ → ℕ

-- a value that must fit 256 bits
abbrev pub fit : ℕ → Option ℕ
fit n = if ltb n u256_size then some n else none

-- a quotient that is an error at a zero divisor
abbrev pub nonzero : ℕ → Option ℕ → Option ℕ
nonzero d r = if d == 0 then none else r

-- The documented behaviour: products and quotients of decimals are truncated, an overflow and a
-- division by zero are errors, and a timestamp's seconds are its whole seconds.
pub record IsCosmwasm (c : Cosmwasm) : Type 0 where
  pub add_law : (a b : ℕ) → c.checked_add a b ≡ fit (a + b)
  pub sub_law : (a b : ℕ) → c.checked_sub a b ≡ (if leb b a then some (a - b) else none)
  pub mul_law : (a b : ℕ) → c.checked_mul a b ≡ fit (a * b / decimal_one)
  pub div_law : (a b : ℕ) → c.checked_div a b ≡ nonzero b (fit (a * decimal_one / b))
  pub saturating_sub_law : (a b : ℕ) → c.saturating_sub a b ≡ a - b
  pub from_ratio_law : (a b : ℕ) → c.from_ratio a b ≡ nonzero b (fit (a * decimal_one / b))
  pub checked_from_ratio_law :
      (a b : ℕ) → c.checked_from_ratio a b ≡ nonzero b (fit (a * decimal_one / b))
  pub from_atomics_law : (a : ℕ) → c.from_atomics a 0 ≡ fit (a * decimal_one)
  pub uint_add_law : (a b : ℕ) → c.uint_checked_add a b ≡ fit (a + b)
  pub uint_mul_law : (a b : ℕ) → c.uint_checked_mul a b ≡ fit (a * b)
  pub uint_div_law : (a b : ℕ) → c.uint_checked_div a b ≡ nonzero b (some (a / b))
  pub uint_rem_law : (a b : ℕ) → c.uint_checked_rem a b ≡ nonzero b (some (a % b))
  pub uint_pow_law : (a b : ℕ) → c.uint_checked_pow a b ≡ fit (a ^ b)
  pub uint128_add_law :
      (a b : ℕ) → c.uint128_checked_add a b ≡ (if ltb (a + b) u128_size then some (a + b) else none)
  pub uint128_sub_law :
      (a b : ℕ) → c.uint128_checked_sub a b ≡ (if leb b a then some (a - b) else none)
  pub seconds_law : (t : ℕ) → c.seconds t ≡ t / 1_000_000_000
