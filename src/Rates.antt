-- ===== src/Rates.antt =====
-- The kink rate curve and the growth of the indexes: contracts/pool_v2/src/utils/rates.rs, lines 40
-- to 154. Rates and utilizations are `Decimal256` atomics.
pub mod Curve
pub mod Split
use democratized_prime_smart.Cosmwasm.{Cosmwasm, decimal_one}
use democratized_prime_smart.Prelude.{
  Result, checked_from_ratio, if◌then◌else◌, leb, min, ok, or_err, overflow_error, panicked, ℕ, ◌-◌,
  ◌==◌, ◌>>=◌, ◌>>◌,
}
use democratized_prime_smart.RateParams.{FeeModel, RateParams, flat_borrow_spread, reserve_factor}
use democratized_prime_smart.Reserve.{utilization}

module _ ⦃c : Cosmwasm⦄ where
  open c use {checked_add, checked_sub, checked_mul, checked_div, from_ratio, seconds}

  -- `borrower_rate_from_utilization` at or below the kink
  rate_below_kink : RateParams → ℕ → Result ℕ
  rate_below_kink p utilization = if p.kink_utilization == 0 then ok p.min_rate else (do
    spread ← or_err (checked_sub p.target_rate p.min_rate) overflow_error
    slope ← or_err (checked_div spread p.kink_utilization) checked_from_ratio
    rise ← or_err (checked_mul slope utilization) overflow_error
    or_err (checked_add p.min_rate rise) overflow_error)

  -- `borrower_rate_from_utilization` above the kink
  rate_above_kink : RateParams → ℕ → Result ℕ
  rate_above_kink p utilization = do
    above_kink ← or_err (checked_sub decimal_one p.kink_utilization) overflow_error
    if above_kink == 0 then ok p.max_rate else (do
      excess ← or_err (checked_sub utilization p.kink_utilization) overflow_error
      spread ← or_err (checked_sub p.max_rate p.target_rate) overflow_error
      slope ← or_err (checked_div spread above_kink) checked_from_ratio
      rise ← or_err (checked_mul slope excess) overflow_error
      rate ← or_err (checked_add p.target_rate rise) overflow_error
      ok (min rate p.max_rate))

  unfoldable pub borrower_rate_from_utilization : RateParams → ℕ → Result ℕ
  unfolding rate_below_kink rate_above_kink
  borrower_rate_from_utilization p utilization =
      if leb utilization p.kink_utilization
      then rate_below_kink p utilization
      else rate_above_kink p utilization

  -- `lender_rate_from_utilization`, by the fee model
  lender_rate : FeeModel → RateParams → ℕ → ℕ → Result ℕ
  lender_rate reserve_factor p utilization borrower_rate = do
    kept ← or_err (checked_sub decimal_one p.reserve_factor) overflow_error
    lender_mult ← or_err (checked_mul utilization kept) overflow_error
    or_err (checked_mul borrower_rate lender_mult) overflow_error
  lender_rate flat_borrow_spread p utilization borrower_rate = do
    spread ← or_err (checked_sub borrower_rate p.flat_fee_apr) overflow_error
    or_err (checked_mul spread utilization) overflow_error

  unfoldable pub lender_rate_from_utilization : RateParams → ℕ → ℕ → Result ℕ
  unfolding lender_rate
  lender_rate_from_utilization p = lender_rate p.fee_model p

  -- `protocol_fee_rate`, by the fee model
  fee_rate : FeeModel → RateParams → ℕ → Result ℕ
  fee_rate reserve_factor p borrower_rate =
      or_err (checked_mul borrower_rate p.reserve_factor) overflow_error
  fee_rate flat_borrow_spread p borrower_rate = ok p.flat_fee_apr

  unfoldable pub protocol_fee_rate : RateParams → ℕ → Result ℕ
  unfolding fee_rate
  protocol_fee_rate p = fee_rate p.fee_model p

  unfoldable pub time_elapsed_seconds : ℕ → ℕ → ℕ
  time_elapsed_seconds from to = seconds to - seconds from

  unfoldable pub index_growth_factor : ℕ → ℕ → ℕ → Result ℕ
  index_growth_factor rate elapsed_seconds per_year =
      if elapsed_seconds == 0 then ok decimal_one else (do
        time_fraction ← or_err (from_ratio elapsed_seconds per_year) panicked
        growth ← or_err (checked_mul rate time_fraction) overflow_error
        or_err (checked_add decimal_one growth) overflow_error)
