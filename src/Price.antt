-- ===== src/Price.antt =====
-- The value of an amount at an oracle price: packages/lib/src/price_oracle/model/price.rs. USD values
-- are `Decimal256` atomics.
pub mod Inverse
use democratized_prime_smart.Cosmwasm.{Cosmwasm, u128_size}
use democratized_prime_smart.Host.{AssetPrice}
use democratized_prime_smart.Prelude.{
  Bool, Option, Result, amount_not_representable, checked_from_ratio, ensure, err, if◌then◌else◌,
  illegal_argument, leb, ltb, none, not, ok, or_err, overflow, panicked, some, ℕ, ◌&&◌, ◌+◌, ◌==◌,
  ◌>>=◌, ◌>>◌, ◌^◌,
}

-- `u32::checked_add`
abbrev u32_checked_add : ℕ → ℕ → Option ℕ
u32_checked_add a b = if ltb (a + b) (2 ^ 32) then some (a + b) else none

-- the display price and its precision; an old payload has only the scaled price
abbrev pub valuation_inputs : AssetPrice → ℕ × ℕ
valuation_inputs price =
    if price.display_price_usd == 0 && price.precision == 0
    then (price.price_usd, 0)
    else (price.display_price_usd, price.precision)

abbrev pub is_zero_price : AssetPrice → Bool
is_zero_price price = (valuation_inputs price).0 == 0

module _ ⦃c : Cosmwasm⦄ where
  open c use {
    checked_from_ratio, uint_checked_add, uint_checked_mul, uint_checked_div, uint_checked_rem,
    uint_checked_pow, seconds,
  }

  ceil_div : ℕ → ℕ → Result ℕ
  ceil_div numerator denominator = do
    quot ← or_err (uint_checked_div numerator denominator) overflow
    rem ← or_err (uint_checked_rem numerator denominator) overflow
    if rem == 0 then ok quot else or_err (uint_checked_add quot 1) amount_not_representable

  -- `value_usd` from the valuation inputs
  notional : ℕ → ℕ → ℕ → Result ℕ
  notional display precision amount = if amount == 0 then ok 0 else (do
    ensure (not (display == 0)) illegal_argument
    numerator ← or_err (uint_checked_mul display amount) overflow
    exp ← or_err (u32_checked_add 18 precision) overflow
    denominator ← or_err (uint_checked_pow 10 exp) overflow
    or_err (checked_from_ratio numerator denominator) overflow)

  unfoldable pub value_usd : AssetPrice → ℕ → Result ℕ
  unfolding notional
  value_usd price = notional (valuation_inputs price).0 (valuation_inputs price).1

  uint128_try_from : ℕ → Result ℕ
  uint128_try_from v = if ltb v u128_size then ok v else err amount_not_representable

  -- `amount_from_usd`
  unfoldable pub amount_from_usd : AssetPrice → ℕ → Result ℕ
  unfolding uint128_try_from
  amount_from_usd price value =
      let (display, precision) = valuation_inputs price in
      if value == 0 then ok 0 else (do
        ensure (not (display == 0)) illegal_argument
        scale ← or_err (uint_checked_pow 10 precision) overflow
        numerator ← or_err (uint_checked_mul value scale) overflow
        quot ← or_err (uint_checked_div numerator display) panicked
        rem ← or_err (uint_checked_rem numerator display) panicked
        ceil ←
            if rem == 0 then ok quot else or_err (uint_checked_add quot 1) amount_not_representable
        uint128_try_from ceil)

  -- `amount_from_usd_haircutted` from the valuation inputs
  haircutted_amount : ℕ → ℕ → ℕ → ℕ → Result ℕ
  unfolding uint128_try_from ceil_div
  haircutted_amount display precision value haircut = if value == 0 then ok 0 else (do
    ensure (not (haircut == 0)) illegal_argument
    ensure (not (display == 0)) illegal_argument
    scale ← or_err (uint_checked_pow 10 precision) overflow
    decimal_exp ← or_err (uint_checked_pow 10 18) overflow
    scaled_value ← or_err (uint_checked_mul value decimal_exp) overflow
    t ← ceil_div scaled_value haircut
    scaled_t ← or_err (uint_checked_mul t scale) overflow
    amount ← ceil_div scaled_t display
    uint128_try_from amount)

  unfoldable pub amount_from_usd_haircutted : AssetPrice → ℕ → ℕ → Result ℕ
  unfolding haircutted_amount
  amount_from_usd_haircutted price =
      haircutted_amount (valuation_inputs price).0 (valuation_inputs price).1

  unfoldable pub is_stale : AssetPrice → ℕ → Bool
  is_stale price at = leb price.expiration_epoch_seconds (seconds at)
