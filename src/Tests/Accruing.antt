-- ===== src/Tests/Accruing.antt =====
-- The theorems about accrual and the payoff on a concrete reserve.
use democratized_prime_smart.Accrual.{compute_effective_reserve}
use democratized_prime_smart.Accrual.Growth.{Grows, accrual-Grows, accrual_idempotent}
use democratized_prime_smart.Borrowing.{repay}
use democratized_prime_smart.Borrowing.Closing.{payoff_closes}
use democratized_prime_smart.Cosmwasm.{decimal_one}
use democratized_prime_smart.Fixtures.{
  env, params, pool, pool-IsValid, reference, reference-IsCosmwasm, reserve, sends, value_of,
}
use democratized_prime_smart.Pool.{set_reserve_state, set_scaled_borrow}
use democratized_prime_smart.Prelude.{[], arith, ok, refl, some, ℕ, ◌*◌, ◌+◌, ◌-◌, ◌<◌, ◌≡◌, ◌≤◌}
use democratized_prime_smart.Rates.{
  borrower_rate_from_utilization, index_growth_factor, lender_rate_from_utilization,
  protocol_fee_rate, time_elapsed_seconds,
}
use democratized_prime_smart.Reserve.{ReserveState, total_borrow, total_liquidity, utilization}
use democratized_prime_smart.Responses.{RateValues, lend_borrow_rate_attribute_values}
use democratized_prime_smart.Scaling.{decimal_floor_to_u128, scaled_to_underlying_borrow_ceil}
use democratized_prime_smart.Scaling.Rounding.{payoff_least}

abbrev accrued : ReserveState
accrued = value_of reserve (compute_effective_reserve reserve env.block_time params)

accrued_run : compute_effective_reserve reserve env.block_time params ≡ ok accrued
unfolding compute_effective_reserve total_liquidity total_borrow borrower_rate_from_utilization
    lender_rate_from_utilization protocol_fee_rate index_growth_factor time_elapsed_seconds
    decimal_floor_to_u128
accrued_run = refl

accrual-Grows_example : Grows reserve accrued
accrual-Grows_example =
    accrual-Grows reference-IsCosmwasm reserve env.block_time params (omega arith) accrued_run

accrual_idempotent_example : compute_effective_reserve accrued env.block_time params ≡ ok accrued
accrual_idempotent_example =
    accrual_idempotent reference-IsCosmwasm reserve env.block_time params (omega arith) accrued_run

abbrev payoff : ℕ
payoff = value_of 0 (scaled_to_underlying_borrow_ceil 200_000 accrued.borrow_index)

payoff_run : scaled_to_underlying_borrow_ceil 200_000 accrued.borrow_index ≡ ok payoff
unfolding scaled_to_underlying_borrow_ceil compute_effective_reserve total_liquidity total_borrow
    borrower_rate_from_utilization lender_rate_from_utilization protocol_fee_rate
    index_growth_factor time_elapsed_seconds decimal_floor_to_u128
payoff_run = refl

payoff_positive : 0 < payoff
unfolding scaled_to_underlying_borrow_ceil compute_effective_reserve total_liquidity total_borrow
    borrower_rate_from_utilization lender_rate_from_utilization protocol_fee_rate
    index_growth_factor time_elapsed_seconds decimal_floor_to_u128
payoff_positive = omega arith

abbrev closed : ReserveState
closed = record accrued { total_scaled_borrow = accrued.total_scaled_borrow - 200_000 }

abbrev no_rates : RateValues
no_rates = record {
  lend_rate = 0;
  borrow_rate = 0;
  liquidity_index = 0;
  borrow_index = 0;
  utilization = 0;
}

abbrev closed_rates : RateValues
closed_rates = value_of no_rates (lend_borrow_rate_attribute_values closed params)

closed_rates_run : lend_borrow_rate_attribute_values closed params ≡ ok closed_rates
unfolding lend_borrow_rate_attribute_values utilization compute_effective_reserve total_liquidity
    total_borrow borrower_rate_from_utilization lender_rate_from_utilization protocol_fee_rate
    index_growth_factor time_elapsed_seconds decimal_floor_to_u128
closed_rates_run = refl

payoff_closes_example :
    repay pool env (sends 20 payoff)
    ≡ ok (
      set_reserve_state (set_scaled_borrow pool 20 0) closed,
      record { messages = []; rates = some closed_rates },
    )
payoff_closes_example =
    payoff_closes reference-IsCosmwasm pool env (sends 20 payoff) payoff pool-IsValid accrued_run
      (omega arith) payoff_run payoff_positive refl closed_rates_run

payoff_least_example :
    (200_000 * accrued.borrow_index ≤ payoff * decimal_one)
    × (payoff * decimal_one < 200_000 * accrued.borrow_index + decimal_one)
payoff_least_example = payoff_least reference-IsCosmwasm 200_000 accrued.borrow_index payoff_run
