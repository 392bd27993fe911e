-- ===== src/Tests/Liquidating.antt =====
-- Liquidations and directed sales on a concrete pool, and the theorems about them there.
use democratized_prime_smart.Map
use democratized_prime_smart.Access.{assert_custodian, assert_liquidator}
use democratized_prime_smart.Accrual.{compute_effective_reserve}
use democratized_prime_smart.Attributes.{validate_single_coin_denom}
use democratized_prime_smart.Borrowing.{scaled_repayment}
use democratized_prime_smart.Collateral.{is_supported}
use democratized_prime_smart.Configuration.{assert_owner_or_custodian, set_operational_state}
use democratized_prime_smart.Contract.{active}
use democratized_prime_smart.DirectedSale.{
  adjust_directed_collateral_sale, is_live, is_seize_within_offer, normalize_seize_map, pos,
  subtract_seize,
}
use democratized_prime_smart.DirectedSale.Offers.{fill_shrinks_offer}
use democratized_prime_smart.Dispatch.{
  adjust_directed_collateral_sale_msg, allowed_when_paused, disabled_when_frozen, dispatch, execute,
  set_operational_state_msg,
}
use democratized_prime_smart.Fixtures.{
  calls, env, host, outcome, pool, pool-IsValid, reference, reference-IsCosmwasm, sends,
}
use democratized_prime_smart.Haircut.{apply_pro_rata_liquidity_index_haircut}
use democratized_prime_smart.Health.{
  calculate_borrow_value_usd, calculate_ltv, calculate_total_collateral_value_usd,
  get_borrower_health, get_health_from_ltv, haircut_percentage,
}
use democratized_prime_smart.Liquidation.{liquidate}
use democratized_prime_smart.Liquidation.Effects.{Liquidated, liquidate-Liquidated}
use democratized_prime_smart.Liquidation.Payment.{fills, find_position, refund, take_payment}
use democratized_prime_smart.Liquidation.Seizure.{
  add_outgoing_amount, bad_debt_underlying, book_loss, check_post_state, check_seizure, dry_run,
  holds_priceable, holds_unpriceable, left_of_offer, priced_value_from,
  require_owner_for_unpriceable, restored, seized_value_from, send_out, settle_reserve,
  shrink_offer, take_out, unpriceable_is_load_bearing,
}
use democratized_prime_smart.Liquidation.Taken.{
  CollateralTaken, DebtTaken, liquidate-CollateralTaken, liquidate-DebtTaken,
}
use democratized_prime_smart.Map.{Map}
use democratized_prime_smart.Pool.{Pool, get_borrower_collateral, subtract_total_collateral}
use democratized_prime_smart.Pool.Invariant.{IsValid}
use democratized_prime_smart.Prelude.{[], arith, ok, refl, some, ℕ, ◌+◌, ◌∷◌, ◌≡◌, ◌≢◌}
use democratized_prime_smart.Price.{is_stale, value_usd}
use democratized_prime_smart.PriceFeed.{
  drop_unpriceable_for_liquidation, get_asset_prices_for_liquidation, get_price_from_oracle,
  liquidation_price_too_old,
}
use democratized_prime_smart.Rates.{
  borrower_rate_from_utilization, index_growth_factor, lender_rate_from_utilization,
  protocol_fee_rate, time_elapsed_seconds,
}
use democratized_prime_smart.Reserve.{total_borrow, total_liquidity, utilization}
use democratized_prime_smart.Responses.{
  Response, attach_rates, lend_borrow_rate_attribute_values, update_reserve_indexes,
}
use democratized_prime_smart.Scaling.{
  decimal_floor_to_u128, scaled_to_underlying_borrow, scaled_to_underlying_borrow_ceil,
  underlying_to_scaled_borrow,
}
use democratized_prime_smart.Steps.{executes, here, then_step}
use democratized_prime_smart.Steps.Replay.{adjust_replay_refused}

-- a borrower whose collateral has shrunk: some of it, and so much that the debt is lost
abbrev thin_pool : Pool
thin_pool = record pool {
  borrower_collateral = (20, (2, 250_000) ∷ []) ∷ [];
  total_collateral_by_asset = (2, 250_000) ∷ [];
}

abbrev lost_pool : Pool
lost_pool = record pool {
  borrower_collateral = (20, (2, 100_000) ∷ []) ∷ [];
  total_collateral_by_asset = (2, 100_000) ∷ [];
}

thin_pool-IsValid : IsValid thin_pool
thin_pool-IsValid = record {
  borrow_total = refl;
  liquidity_bound = omega arith;
  borrow_bound = omega arith;
  accrued_bound = omega arith;
  deficit_bound = omega arith;
  collateral_total = λ asset. ground arith;
  debts_sorted = ground arith;
  totals_sorted = ground arith;
  borrowers_sorted = ground arith;
  holdings_sorted = ground arith;
}

lost_pool-IsValid : IsValid lost_pool
lost_pool-IsValid = record {
  borrow_total = refl;
  liquidity_bound = omega arith;
  borrow_bound = omega arith;
  accrued_bound = omega arith;
  deficit_bound = omega arith;
  collateral_total = λ asset. ground arith;
  debts_sorted = ground arith;
  totals_sorted = ground arith;
  borrowers_sorted = ground arith;
  holdings_sorted = ground arith;
}

abbrev seizure_of : ℕ → Map ℕ
seizure_of amount = (2, amount) ∷ []

abbrev liquidated : Pool × Response
liquidated = outcome (liquidate host thin_pool env (sends 9 170_000) 20 (seizure_of 170_000))

liquidated_run :
    liquidate host thin_pool env (sends 9 170_000) 20 (seizure_of 170_000) ≡ ok liquidated
unfolding liquidate find_position take_payment check_seizure bad_debt_underlying settle_reserve
    book_loss send_out shrink_offer refund fills seized_value_from priced_value_from
    require_owner_for_unpriceable unpriceable_is_load_bearing check_post_state restored
    holds_priceable holds_unpriceable dry_run take_out add_outgoing_amount left_of_offer
    normalize_seize_map is_seize_within_offer subtract_seize is_live is_supported scaled_repayment
    assert_liquidator validate_single_coin_denom get_asset_prices_for_liquidation
    get_price_from_oracle drop_unpriceable_for_liquidation liquidation_price_too_old is_stale
    get_borrower_health get_health_from_ltv calculate_ltv calculate_borrow_value_usd
    calculate_total_collateral_value_usd haircut_percentage value_usd underlying_to_scaled_borrow
    scaled_to_underlying_borrow scaled_to_underlying_borrow_ceil subtract_total_collateral
    apply_pro_rata_liquidity_index_haircut update_reserve_indexes attach_rates
    lend_borrow_rate_attribute_values utilization compute_effective_reserve total_liquidity
    total_borrow borrower_rate_from_utilization lender_rate_from_utilization protocol_fee_rate
    index_growth_factor time_elapsed_seconds decimal_floor_to_u128
liquidated_run = refl

abbrev written_off : Pool × Response
written_off = outcome (liquidate host lost_pool env (sends 9 98_000) 20 (seizure_of 100_000))

written_off_run :
    liquidate host lost_pool env (sends 9 98_000) 20 (seizure_of 100_000) ≡ ok written_off
unfolding liquidate find_position take_payment check_seizure bad_debt_underlying settle_reserve
    book_loss send_out shrink_offer refund fills seized_value_from priced_value_from
    require_owner_for_unpriceable unpriceable_is_load_bearing check_post_state restored
    holds_priceable holds_unpriceable dry_run take_out add_outgoing_amount left_of_offer
    normalize_seize_map is_seize_within_offer subtract_seize is_live is_supported scaled_repayment
    assert_liquidator validate_single_coin_denom get_asset_prices_for_liquidation
    get_price_from_oracle drop_unpriceable_for_liquidation liquidation_price_too_old is_stale
    get_borrower_health get_health_from_ltv calculate_ltv calculate_borrow_value_usd
    calculate_total_collateral_value_usd haircut_percentage value_usd underlying_to_scaled_borrow
    scaled_to_underlying_borrow scaled_to_underlying_borrow_ceil subtract_total_collateral
    apply_pro_rata_liquidity_index_haircut update_reserve_indexes attach_rates
    lend_borrow_rate_attribute_values utilization compute_effective_reserve total_liquidity
    total_borrow borrower_rate_from_utilization lender_rate_from_utilization protocol_fee_rate
    index_growth_factor time_elapsed_seconds decimal_floor_to_u128
written_off_run = refl

-- the debt that a write-off leaves as a deficit
written_off_deficit : written_off.0.reserve.deficit_underlying ≡ 122_019
unfolding liquidate find_position take_payment check_seizure bad_debt_underlying settle_reserve
    book_loss send_out shrink_offer refund fills seized_value_from priced_value_from
    require_owner_for_unpriceable unpriceable_is_load_bearing check_post_state restored
    holds_priceable holds_unpriceable dry_run take_out add_outgoing_amount left_of_offer
    normalize_seize_map is_seize_within_offer subtract_seize is_live is_supported scaled_repayment
    assert_liquidator validate_single_coin_denom get_asset_prices_for_liquidation
    get_price_from_oracle drop_unpriceable_for_liquidation liquidation_price_too_old is_stale
    get_borrower_health get_health_from_ltv calculate_ltv calculate_borrow_value_usd
    calculate_total_collateral_value_usd haircut_percentage value_usd underlying_to_scaled_borrow
    scaled_to_underlying_borrow scaled_to_underlying_borrow_ceil subtract_total_collateral
    apply_pro_rata_liquidity_index_haircut update_reserve_indexes attach_rates
    lend_borrow_rate_attribute_values utilization compute_effective_reserve total_liquidity
    total_borrow borrower_rate_from_utilization lender_rate_from_utilization protocol_fee_rate
    index_growth_factor time_elapsed_seconds decimal_floor_to_u128
written_off_deficit = refl

-- the seizure of a partial liquidation went to the liquidator, and the remainder stays
liquidated_holdings : get_borrower_collateral liquidated.0 20 ≡ (2, 80_000) ∷ []
unfolding liquidate find_position take_payment check_seizure bad_debt_underlying settle_reserve
    book_loss send_out shrink_offer refund fills seized_value_from priced_value_from
    require_owner_for_unpriceable unpriceable_is_load_bearing check_post_state restored
    holds_priceable holds_unpriceable dry_run take_out add_outgoing_amount left_of_offer
    normalize_seize_map is_seize_within_offer subtract_seize is_live is_supported scaled_repayment
    assert_liquidator validate_single_coin_denom get_asset_prices_for_liquidation
    get_price_from_oracle drop_unpriceable_for_liquidation liquidation_price_too_old is_stale
    get_borrower_health get_health_from_ltv calculate_ltv calculate_borrow_value_usd
    calculate_total_collateral_value_usd haircut_percentage value_usd underlying_to_scaled_borrow
    scaled_to_underlying_borrow scaled_to_underlying_borrow_ceil subtract_total_collateral
    apply_pro_rata_liquidity_index_haircut update_reserve_indexes attach_rates
    lend_borrow_rate_attribute_values utilization compute_effective_reserve total_liquidity
    total_borrow borrower_rate_from_utilization lender_rate_from_utilization protocol_fee_rate
    index_growth_factor time_elapsed_seconds decimal_floor_to_u128
liquidated_holdings = refl

liquidate-Liquidated_example :
    Liquidated host thin_pool env (sends 9 170_000) 20 (seizure_of 170_000) liquidated
liquidate-Liquidated_example =
    liquidate-Liquidated reference-IsCosmwasm host thin_pool env (sends 9 170_000) 20
      (seizure_of 170_000) thin_pool-IsValid liquidated_run

liquidate-CollateralTaken_example :
    (address : ℕ) × (host.addr_validate (host.trim 20) ≡ some address)
    × CollateralTaken lost_pool env (sends 9 98_000) address written_off.0 written_off.1.messages
liquidate-CollateralTaken_example =
    liquidate-CollateralTaken reference-IsCosmwasm host lost_pool env (sends 9 98_000) 20
      (seizure_of 100_000) lost_pool-IsValid written_off_run

liquidate-DebtTaken_example :
    (address : ℕ) × (host.addr_validate (host.trim 20) ≡ some address)
    × DebtTaken lost_pool env (sends 9 98_000) address written_off.0
liquidate-DebtTaken_example =
    liquidate-DebtTaken reference-IsCosmwasm host lost_pool env (sends 9 98_000) 20
      (seizure_of 100_000) lost_pool-IsValid written_off_run

-- two assets offered, and a part of one sold
abbrev offered : Map ℕ
offered = (2, 700) ∷ (3, 40) ∷ []

fill_shrinks_offer_example :
    Map.get 2 (subtract_seize offered (seizure_of 300)) + Map.get 2 (seizure_of 300)
    ≡ Map.get 2 offered
unfolding is_seize_within_offer
fill_shrinks_offer_example =
    fill_shrinks_offer offered (seizure_of 300) 2 (ground arith) (ground arith) refl

-- the borrower offers 500 at version one; then the custodian sets the pool active
abbrev adjusted : Pool × Response
adjusted =
    outcome
      (adjust_directed_collateral_sale pool env (calls 20) ((2, pos 500) ∷ []) 90_000_000_000_000 1)

adjusted_run :
    execute host pool env
      (calls 20)
      (adjust_directed_collateral_sale_msg ((2, pos 500) ∷ []) 90_000_000_000_000 1)
    ≡ ok adjusted
unfolding execute dispatch allowed_when_paused disabled_when_frozen adjust_directed_collateral_sale
    is_supported
adjusted_run = refl

abbrev confirmed : Pool × Response
confirmed = outcome (set_operational_state host adjusted.0 (calls 11) active)

confirmed_run :
    execute host adjusted.0 env (calls 11) (set_operational_state_msg active) ≡ ok confirmed
unfolding execute dispatch allowed_when_paused disabled_when_frozen set_operational_state
    assert_owner_or_custodian assert_custodian adjust_directed_collateral_sale is_supported
confirmed_run = refl

adjust_replay_refused_example :
    execute host confirmed.0 env (calls 20) (adjust_directed_collateral_sale_msg [] 0 1)
    ≢ ok (adjusted.0, adjusted.1)
adjust_replay_refused_example =
    adjust_replay_refused reference-IsCosmwasm host pool confirmed.0 env env (calls 20) (calls 20)
      ((2, pos 500) ∷ []) [] 90_000_000_000_000 0 1 pool-IsValid adjusted_run
      (then_step here (executes env (calls 11) (set_operational_state_msg active) confirmed_run))
      refl
