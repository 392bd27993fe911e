-- ===== src/Tests.antt =====
-- The handlers on a concrete pool, and the theorems about them there.
pub mod Accruing
pub mod Checks
pub mod Conversions
pub mod Curves
pub mod Delivering
pub mod Liquidating
pub mod Settings
use democratized_prime_smart.Access.{assert_owner, current_owner}
use democratized_prime_smart.Accrual.{compute_effective_reserve}
use democratized_prime_smart.Attributes.{validate_account_attrs, validate_single_coin_denom}
use democratized_prime_smart.Borrowing.{borrow, check_health, repay, scaled_repayment}
use democratized_prime_smart.Borrowing.Effects.{Borrowed, borrow-Borrowed}
use democratized_prime_smart.Borrowing.Repayment.{Repaid, repay-Repaid}
use democratized_prime_smart.Collateral.{
  add_collateral, is_supported, remove_collateral, validate_borrower_collateral_type_limit,
}
use democratized_prime_smart.Collateral.Effects.{
  CollateralRemoved, add_collateral-CollateralMoved, remove_collateral-CollateralRemoved,
}
use democratized_prime_smart.Collateral.Settling.{CollateralMoved}
use democratized_prime_smart.Contract.{repo_token_addr}
use democratized_prime_smart.Dispatch.{
  allowed_when_paused, borrow_msg, disabled_when_frozen, dispatch, execute, lend_msg,
}
use democratized_prime_smart.Fixtures.{
  calls, env, host, outcome, pool, pool-IsValid, reference, reference-IsCosmwasm, sends, short_pool,
  short_pool-IsValid,
}
use democratized_prime_smart.Haircut.{apply_pro_rata_liquidity_index_haircut}
use democratized_prime_smart.Health.{
  calculate_borrow_value_usd, calculate_ltv, calculate_total_collateral_value_usd,
  get_borrower_health, get_health_from_ltv, haircut_percentage, validate_borrower_is_healthy,
}
use democratized_prime_smart.Host.{MessageInfo}
use democratized_prime_smart.Lending.{
  deduct_scaled_liquidity_and_save, execute_withdraw, execute_withdraw_cw20, lend, owner_payout,
  received_payout, refund_of,
}
use democratized_prime_smart.Lending.Effects.{Lent, lend-Lent}
use democratized_prime_smart.Lending.Withdrawals.{
  OwnerWithdrawn, Redeemed, redeem-Redeemed, withdraw-Withdrawn,
}
use democratized_prime_smart.Pool.{Pool, add_total_collateral, subtract_total_collateral}
use democratized_prime_smart.Pool.Invariant.{IsValid}
use democratized_prime_smart.Prelude.{[], false, none, ok, refl, some, ◌∷◌, ◌≡◌}
use democratized_prime_smart.Price.{is_stale, value_usd}
use democratized_prime_smart.PriceFeed.{
  drop_unpriceable_collateral, get_asset_prices_for_borrower, get_price_from_oracle,
  require_fresh_asset_prices,
}
use democratized_prime_smart.Rates.{
  borrower_rate_from_utilization, index_growth_factor, lender_rate_from_utilization,
  protocol_fee_rate, time_elapsed_seconds,
}
use democratized_prime_smart.Reserve.{total_borrow, total_liquidity, utilization}
use democratized_prime_smart.Responses.{
  Response, attach_rates, commit_if, lend_borrow_rate_attribute_values, update_reserve_indexes,
}
use democratized_prime_smart.Scaling.{
  debt_after_borrow, decimal_floor_to_u128, reserve_totals_and_cash_u128,
  scaled_to_underlying_borrow, scaled_to_underlying_borrow_ceil, scaled_to_underlying_liquidity,
  underlying_to_scaled_borrow, underlying_to_scaled_borrow_ceil, underlying_to_scaled_liquidity,
}
use democratized_prime_smart.Steps.{executes, here, then_step}
use democratized_prime_smart.Steps.Safety.{Reaches-IsValid}
use democratized_prime_smart.Treasury.{
  EliminateDeficitFunding, eliminate_deficit, socialize_deficit, withdraw_reserve,
}
use democratized_prime_smart.Treasury.Deficit.{Eliminated, eliminate_deficit-Eliminated}
use democratized_prime_smart.Treasury.Effects.{ReserveWithdrawn, withdraw_reserve-ReserveWithdrawn}
use democratized_prime_smart.Treasury.Socialization.{Socialized, socialize_deficit-Socialized}

abbrev deposit : MessageInfo
deposit = record { sender = 21; funds = record { denom = 2; amount = 700 } ∷ [] }

abbrev lent : Pool × Response
lent = outcome (lend host pool env (sends 21 1_000))

lent_run : lend host pool env (sends 21 1_000) ≡ ok lent
unfolding lend validate_account_attrs validate_single_coin_denom repo_token_addr
    underlying_to_scaled_liquidity update_reserve_indexes attach_rates
    lend_borrow_rate_attribute_values utilization compute_effective_reserve total_liquidity
    total_borrow borrower_rate_from_utilization lender_rate_from_utilization protocol_fee_rate
    index_growth_factor time_elapsed_seconds decimal_floor_to_u128
lent_run = refl

abbrev withdrawn : Pool × Response
withdrawn = outcome (execute_withdraw host pool env (calls 10) 21 (some 1_000) none)

withdrawn_run : execute_withdraw host pool env (calls 10) 21 (some 1_000) none ≡ ok withdrawn
unfolding execute_withdraw owner_payout deduct_scaled_liquidity_and_save assert_owner
    repo_token_addr reserve_totals_and_cash_u128 scaled_to_underlying_liquidity
    scaled_to_underlying_borrow underlying_to_scaled_liquidity commit_if update_reserve_indexes
    attach_rates lend_borrow_rate_attribute_values utilization compute_effective_reserve
    total_liquidity total_borrow borrower_rate_from_utilization lender_rate_from_utilization
    protocol_fee_rate index_growth_factor time_elapsed_seconds decimal_floor_to_u128
withdrawn_run = refl

abbrev redeemed : Pool × Response
redeemed = outcome (execute_withdraw_cw20 host pool env 21 2_000 (some 1_000) false none)

redeemed_run : execute_withdraw_cw20 host pool env 21 2_000 (some 1_000) false none ≡ ok redeemed
unfolding execute_withdraw_cw20 received_payout refund_of deduct_scaled_liquidity_and_save
    repo_token_addr reserve_totals_and_cash_u128 scaled_to_underlying_liquidity
    scaled_to_underlying_borrow underlying_to_scaled_liquidity commit_if update_reserve_indexes
    attach_rates lend_borrow_rate_attribute_values utilization compute_effective_reserve
    total_liquidity total_borrow borrower_rate_from_utilization lender_rate_from_utilization
    protocol_fee_rate index_growth_factor time_elapsed_seconds decimal_floor_to_u128
redeemed_run = refl

abbrev borrowed : Pool × Response
borrowed = outcome (borrow host pool env (calls 20) 1_000)

borrowed_run : borrow host pool env (calls 20) 1_000 ≡ ok borrowed
unfolding borrow check_health get_asset_prices_for_borrower get_price_from_oracle
    drop_unpriceable_collateral is_stale get_borrower_health get_health_from_ltv calculate_ltv
    calculate_borrow_value_usd calculate_total_collateral_value_usd haircut_percentage value_usd
    validate_borrower_is_healthy debt_after_borrow commit_if reserve_totals_and_cash_u128
    underlying_to_scaled_borrow_ceil scaled_to_underlying_liquidity scaled_to_underlying_borrow
    validate_account_attrs update_reserve_indexes attach_rates lend_borrow_rate_attribute_values
    utilization compute_effective_reserve total_liquidity total_borrow
    borrower_rate_from_utilization lender_rate_from_utilization protocol_fee_rate
    index_growth_factor time_elapsed_seconds decimal_floor_to_u128
borrowed_run = refl

abbrev repaid : Pool × Response
repaid = outcome (repay pool env (sends 20 300_000))

repaid_run : repay pool env (sends 20 300_000) ≡ ok repaid
unfolding repay scaled_repayment commit_if validate_single_coin_denom
    scaled_to_underlying_borrow_ceil underlying_to_scaled_borrow update_reserve_indexes attach_rates
    lend_borrow_rate_attribute_values utilization compute_effective_reserve total_liquidity
    total_borrow borrower_rate_from_utilization lender_rate_from_utilization protocol_fee_rate
    index_growth_factor time_elapsed_seconds decimal_floor_to_u128
repaid_run = refl

abbrev added : Pool × Response
added = outcome (add_collateral host pool env deposit)

added_run : add_collateral host pool env deposit ≡ ok added
unfolding add_collateral is_supported add_total_collateral require_fresh_asset_prices
    get_price_from_oracle is_stale validate_borrower_collateral_type_limit validate_account_attrs
    update_reserve_indexes attach_rates lend_borrow_rate_attribute_values utilization
    compute_effective_reserve total_liquidity total_borrow borrower_rate_from_utilization
    lender_rate_from_utilization protocol_fee_rate index_growth_factor time_elapsed_seconds
    decimal_floor_to_u128
added_run = refl

abbrev removed : Pool × Response
removed = outcome (remove_collateral host pool env (calls 20) ((2, 100) ∷ []))

removed_run : remove_collateral host pool env (calls 20) ((2, 100) ∷ []) ≡ ok removed
unfolding remove_collateral is_supported subtract_total_collateral get_asset_prices_for_borrower
    get_price_from_oracle drop_unpriceable_collateral is_stale get_borrower_health
    get_health_from_ltv calculate_ltv calculate_borrow_value_usd
    calculate_total_collateral_value_usd haircut_percentage value_usd validate_borrower_is_healthy
    debt_after_borrow commit_if reserve_totals_and_cash_u128 underlying_to_scaled_borrow_ceil
    scaled_to_underlying_liquidity scaled_to_underlying_borrow validate_account_attrs
    update_reserve_indexes attach_rates lend_borrow_rate_attribute_values utilization
    compute_effective_reserve total_liquidity total_borrow borrower_rate_from_utilization
    lender_rate_from_utilization protocol_fee_rate index_growth_factor time_elapsed_seconds
    decimal_floor_to_u128
removed_run = refl

abbrev reserve_paid : Pool × Response
reserve_paid = outcome (withdraw_reserve host pool env (calls 10) none)

reserve_paid_run : withdraw_reserve host pool env (calls 10) none ≡ ok reserve_paid
unfolding withdraw_reserve assert_owner current_owner reserve_totals_and_cash_u128
    scaled_to_underlying_liquidity scaled_to_underlying_borrow update_reserve_indexes attach_rates
    lend_borrow_rate_attribute_values utilization compute_effective_reserve total_liquidity
    total_borrow borrower_rate_from_utilization lender_rate_from_utilization protocol_fee_rate
    index_growth_factor time_elapsed_seconds decimal_floor_to_u128
reserve_paid_run = refl

abbrev socialized : Pool × Response
socialized = outcome (socialize_deficit host short_pool env (calls 10) 500)

socialized_run : socialize_deficit host short_pool env (calls 10) 500 ≡ ok socialized
unfolding socialize_deficit assert_owner apply_pro_rata_liquidity_index_haircut
    update_reserve_indexes attach_rates lend_borrow_rate_attribute_values utilization
    compute_effective_reserve total_liquidity total_borrow borrower_rate_from_utilization
    lender_rate_from_utilization protocol_fee_rate index_growth_factor time_elapsed_seconds
    decimal_floor_to_u128
socialized_run = refl

abbrev eliminated : Pool × Response
eliminated =
    outcome
      (eliminate_deficit host short_pool env (sends 33 600) (EliminateDeficitFunding.bank 400))

eliminated_run :
    eliminate_deficit host short_pool env (sends 33 600) (EliminateDeficitFunding.bank 400)
    ≡ ok eliminated
unfolding eliminate_deficit assert_owner validate_single_coin_denom update_reserve_indexes
    attach_rates lend_borrow_rate_attribute_values utilization compute_effective_reserve
    total_liquidity total_borrow borrower_rate_from_utilization lender_rate_from_utilization
    protocol_fee_rate index_growth_factor time_elapsed_seconds decimal_floor_to_u128
eliminated_run = refl

abbrev borrowed_next : Pool × Response
borrowed_next = outcome (borrow host lent.0 env (calls 20) 500)

borrowed_next_run : borrow host lent.0 env (calls 20) 500 ≡ ok borrowed_next
unfolding lend validate_single_coin_denom repo_token_addr underlying_to_scaled_liquidity borrow
    check_health get_asset_prices_for_borrower get_price_from_oracle drop_unpriceable_collateral
    is_stale get_borrower_health get_health_from_ltv calculate_ltv calculate_borrow_value_usd
    calculate_total_collateral_value_usd haircut_percentage value_usd validate_borrower_is_healthy
    debt_after_borrow commit_if reserve_totals_and_cash_u128 underlying_to_scaled_borrow_ceil
    scaled_to_underlying_liquidity scaled_to_underlying_borrow validate_account_attrs
    update_reserve_indexes attach_rates lend_borrow_rate_attribute_values utilization
    compute_effective_reserve total_liquidity total_borrow borrower_rate_from_utilization
    lender_rate_from_utilization protocol_fee_rate index_growth_factor time_elapsed_seconds
    decimal_floor_to_u128
borrowed_next_run = refl

lend-Lent_example : Lent pool env (sends 21 1_000) lent
lend-Lent_example = lend-Lent reference-IsCosmwasm host pool env (sends 21 1_000) lent_run

withdraw-Withdrawn_example : OwnerWithdrawn host pool env 21 none withdrawn
withdraw-Withdrawn_example =
    withdraw-Withdrawn reference-IsCosmwasm host pool env (calls 10) 21 (some 1_000) none
      withdrawn_run

redeem-Redeemed_example : Redeemed reference-IsCosmwasm pool env 21 2_000 none redeemed
redeem-Redeemed_example =
    redeem-Redeemed reference-IsCosmwasm host pool env 21 2_000 (some 1_000) false none redeemed_run

borrow-Borrowed_example : Borrowed host pool env 20 1_000 borrowed
borrow-Borrowed_example = borrow-Borrowed host pool env (calls 20) 1_000 borrowed_run

repay-Repaid_example : Repaid pool env (sends 20 300_000) repaid
repay-Repaid_example = repay-Repaid reference-IsCosmwasm pool env (sends 20 300_000) repaid_run

add_collateral-CollateralMoved_example :
    CollateralMoved pool added.0 21 (record { denom = 2; amount = 700 } ∷ []) []
    × IsValid added.0
    × (added.1.messages ≡ [])
add_collateral-CollateralMoved_example =
    add_collateral-CollateralMoved reference-IsCosmwasm host pool env deposit pool-IsValid added_run

remove_collateral-CollateralRemoved_example :
    CollateralRemoved reference-IsCosmwasm host pool env 20 ((2, 100) ∷ []) removed
remove_collateral-CollateralRemoved_example =
    remove_collateral-CollateralRemoved reference-IsCosmwasm host pool env (calls 20)
      ((2, 100) ∷ []) pool-IsValid removed_run

withdraw_reserve-ReserveWithdrawn_example : ReserveWithdrawn host pool env 10 reserve_paid
withdraw_reserve-ReserveWithdrawn_example =
    withdraw_reserve-ReserveWithdrawn host pool env (calls 10) none reserve_paid_run

socialize_deficit-Socialized_example : Socialized host short_pool env 10 500 socialized
socialize_deficit-Socialized_example =
    socialize_deficit-Socialized reference-IsCosmwasm host short_pool env (calls 10) 500
      short_pool-IsValid socialized_run

eliminate_deficit-Eliminated_example :
    Eliminated short_pool env (sends 33 600) (EliminateDeficitFunding.bank 400) eliminated
eliminate_deficit-Eliminated_example =
    eliminate_deficit-Eliminated host short_pool env (sends 33 600)
      (EliminateDeficitFunding.bank 400) eliminated_run

lend_step : execute host pool env (sends 21 1_000) lend_msg ≡ ok lent
unfolding execute dispatch allowed_when_paused disabled_when_frozen
lend_step = lent_run

borrow_step : execute host lent.0 env (calls 20) (borrow_msg 500) ≡ ok borrowed_next
unfolding execute dispatch allowed_when_paused disabled_when_frozen lend validate_single_coin_denom
    repo_token_addr underlying_to_scaled_liquidity borrow check_health get_asset_prices_for_borrower
    get_price_from_oracle drop_unpriceable_collateral is_stale get_borrower_health
    get_health_from_ltv calculate_ltv calculate_borrow_value_usd
    calculate_total_collateral_value_usd haircut_percentage value_usd validate_borrower_is_healthy
    debt_after_borrow commit_if reserve_totals_and_cash_u128 underlying_to_scaled_borrow_ceil
    scaled_to_underlying_liquidity scaled_to_underlying_borrow validate_account_attrs
    update_reserve_indexes attach_rates lend_borrow_rate_attribute_values utilization
    compute_effective_reserve total_liquidity total_borrow borrower_rate_from_utilization
    lender_rate_from_utilization protocol_fee_rate index_growth_factor time_elapsed_seconds
    decimal_floor_to_u128
borrow_step = borrowed_next_run

Reaches-IsValid_example : IsValid borrowed_next.0
Reaches-IsValid_example = Reaches-IsValid reference-IsCosmwasm host pool-IsValid (
    then_step (then_step here (executes env (sends 21 1_000) lend_msg lend_step))
      (executes env (calls 20) (borrow_msg 500) borrow_step))
