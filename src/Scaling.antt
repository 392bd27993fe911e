-- ===== src/Scaling.antt =====
-- Conversions between scaled and underlying amounts: contracts/pool_v2/src/utils/rates.rs, lines 231
-- to 377 and 447 to 449. Amounts are `u128`, indexes `Decimal256` atomics.
pub mod Exact
pub mod Rounding
use democratized_prime_smart.U128
use democratized_prime_smart.Cosmwasm.{Cosmwasm, u128_size}
use democratized_prime_smart.Prelude.{
  Result, checked_from_ratio, divide_by_zero, ensure, err, if◌then◌else◌, illegal_state, ltb, not,
  ok, or_err, overflow_error, panicked, ℕ, ◌-◌, ◌==◌, ◌>>=◌, ◌>>◌,
}
use democratized_prime_smart.Reserve.{ReserveState}

uint256_to_u128 : ℕ → Result ℕ
uint256_to_u128 v = if ltb v u128_size then ok v else err illegal_state

module _ ⦃c : Cosmwasm⦄ where
  open c use {
    checked_mul, checked_div, from_ratio, uint_checked_add, uint_checked_div, uint_checked_rem,
    uint_checked_pow,
  }

  -- `value.atomics() / 10^18`, as a `u128`
  unfoldable pub decimal_floor_to_u128 : ℕ → Result ℕ
  unfolding uint256_to_u128
  decimal_floor_to_u128 atomics = do
    exp ← or_err (uint_checked_pow 10 18) panicked
    whole ← or_err (uint_checked_div atomics exp) divide_by_zero
    uint256_to_u128 whole

  -- the same, and one more where a remainder is cut off
  decimal_ceil_to_u128 : ℕ → Result ℕ
  unfolding uint256_to_u128
  decimal_ceil_to_u128 atomics = do
    exp ← or_err (uint_checked_pow 10 18) panicked
    whole ← or_err (uint_checked_div atomics exp) divide_by_zero
    remainder ← or_err (uint_checked_rem atomics exp) divide_by_zero
    whole_ceil ←
        if remainder == 0 then ok whole else or_err (uint_checked_add whole 1) overflow_error
    uint256_to_u128 whole_ceil

  -- an amount over an index
  scaled_decimal : ℕ → ℕ → Result ℕ
  scaled_decimal underlying index = do
    ensure (not (index == 0)) illegal_state
    underlying_d ← or_err (from_ratio underlying 1) panicked
    or_err (checked_div underlying_d index) checked_from_ratio

  -- a scaled amount times an index
  underlying_decimal : ℕ → ℕ → Result ℕ
  underlying_decimal scaled index = do
    scaled_d ← or_err (from_ratio scaled 1) panicked
    or_err (checked_mul scaled_d index) overflow_error

  unfoldable pub underlying_to_scaled_liquidity : ℕ → ℕ → Result ℕ
  unfolding scaled_decimal decimal_floor_to_u128
  underlying_to_scaled_liquidity underlying liquidity_index =
      scaled_decimal underlying liquidity_index >>= decimal_floor_to_u128

  unfoldable pub underlying_to_scaled_borrow : ℕ → ℕ → Result ℕ
  unfolding scaled_decimal decimal_floor_to_u128
  underlying_to_scaled_borrow underlying borrow_index =
      scaled_decimal underlying borrow_index >>= decimal_floor_to_u128

  unfoldable pub underlying_to_scaled_borrow_ceil : ℕ → ℕ → Result ℕ
  unfolding scaled_decimal decimal_ceil_to_u128
  underlying_to_scaled_borrow_ceil underlying borrow_index =
      scaled_decimal underlying borrow_index >>= decimal_ceil_to_u128

  unfoldable pub scaled_to_underlying_liquidity : ℕ → ℕ → Result ℕ
  unfolding underlying_decimal decimal_floor_to_u128
  scaled_to_underlying_liquidity scaled liquidity_index =
      underlying_decimal scaled liquidity_index >>= decimal_floor_to_u128

  unfoldable pub scaled_to_underlying_borrow : ℕ → ℕ → Result ℕ
  unfolding underlying_decimal decimal_floor_to_u128
  scaled_to_underlying_borrow scaled borrow_index =
      underlying_decimal scaled borrow_index >>= decimal_floor_to_u128

  unfoldable pub scaled_to_underlying_borrow_ceil : ℕ → ℕ → Result ℕ
  unfolding underlying_decimal decimal_ceil_to_u128
  scaled_to_underlying_borrow_ceil scaled borrow_index =
      underlying_decimal scaled borrow_index >>= decimal_ceil_to_u128

  -- the scaled debt that a borrow adds, the new scaled debt, and its value
  unfoldable pub debt_after_borrow : ℕ → ℕ → ℕ → Result (ℕ × ℕ × ℕ)
  debt_after_borrow current_scaled amount borrow_index = do
    scaled_delta ← underlying_to_scaled_borrow_ceil amount borrow_index
    new_scaled ← or_err (U128.checked_add current_scaled scaled_delta) illegal_state
    debt_after ← scaled_to_underlying_borrow new_scaled borrow_index
    ok (scaled_delta, new_scaled, debt_after)

  -- total liquidity, total borrow and cash
  unfoldable pub reserve_totals_and_cash_u128 : ReserveState → Result (ℕ × ℕ × ℕ)
  reserve_totals_and_cash_u128 r = do
    total_liquidity_u128 ← scaled_to_underlying_liquidity r.total_scaled_liquidity r.liquidity_index
    total_borrow_u128 ← scaled_to_underlying_borrow r.total_scaled_borrow r.borrow_index
    ok (
      total_liquidity_u128,
      total_borrow_u128,
      total_liquidity_u128 - total_borrow_u128 - r.deficit_underlying,
    )
