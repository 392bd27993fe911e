-- ===== src/Accrual.antt =====
-- Accrual of interest: contracts/pool_v2/src/utils/rates.rs, lines 156 to 230.
pub mod Growth
use democratized_prime_smart.U128
use democratized_prime_smart.Cosmwasm.{Cosmwasm}
use democratized_prime_smart.Prelude.{
  Result, checked_from_ratio, if◌then◌else◌, ok, or_err, overflow_error, panicked, ℕ, ◌==◌, ◌>>=◌,
  ◌>>◌,
}
use democratized_prime_smart.RateParams.{RateParams, seconds_per_year}
use democratized_prime_smart.Rates.{
  borrower_rate_from_utilization, index_growth_factor, lender_rate_from_utilization,
  protocol_fee_rate, time_elapsed_seconds,
}
use democratized_prime_smart.Reserve.{ReserveState, total_borrow, total_liquidity}
use democratized_prime_smart.Scaling.{decimal_floor_to_u128}

module _ ⦃c : Cosmwasm⦄ where
  open c use {checked_mul, checked_div, from_ratio}

  -- the utilization that `compute_effective_reserve` works out for itself
  utilization_of : ℕ → ℕ → Result ℕ
  utilization_of total_liquidity total_borrow =
      if total_liquidity == 0
      then ok 0
      else or_err (checked_div total_borrow total_liquidity) checked_from_ratio

  -- the fee on the borrows before the accrual
  fee_of : RateParams → ℕ → ℕ → ℕ → Result ℕ
  fee_of p total_borrow_before borrower_rate elapsed = do
    time_fraction ← or_err (from_ratio elapsed seconds_per_year) panicked
    fee_apr ← protocol_fee_rate p borrower_rate
    yearly ← or_err (checked_mul total_borrow_before fee_apr) overflow_error
    fee ← or_err (checked_mul yearly time_fraction) overflow_error
    decimal_floor_to_u128 fee

  -- `compute_effective_reserve` once time has passed
  accrue : ReserveState → ℕ → RateParams → ℕ → Result ReserveState
  accrue reserve as_of_time p elapsed = do
    liquidity ← total_liquidity reserve
    total_borrow_before ← total_borrow reserve
    u ← utilization_of liquidity total_borrow_before
    borrower_rate ← borrower_rate_from_utilization p u
    lender_rate ← lender_rate_from_utilization p u borrower_rate
    li_factor ← index_growth_factor lender_rate elapsed seconds_per_year
    bi_factor ← index_growth_factor borrower_rate elapsed seconds_per_year
    new_li ← or_err (checked_mul reserve.liquidity_index li_factor) overflow_error
    new_bi ← or_err (checked_mul reserve.borrow_index bi_factor) overflow_error
    fee ← fee_of p total_borrow_before borrower_rate elapsed
    ok (record reserve {
      liquidity_index = new_li;
      borrow_index = new_bi;
      last_updated_at = as_of_time;
      accrued_reserve = U128.saturating_add reserve.accrued_reserve fee;
    })

  unfoldable pub compute_effective_reserve : ReserveState → ℕ → RateParams → Result ReserveState
  unfolding accrue utilization_of fee_of
  compute_effective_reserve reserve as_of_time p =
      let elapsed = time_elapsed_seconds reserve.last_updated_at as_of_time in
      if elapsed == 0 then ok reserve else accrue reserve as_of_time p elapsed
