-- ===== src/Liquidation/Payment.antt =====
-- The position of the borrower and what is repaid: sections 2 to 5 of `liquidate` in
-- contracts/pool_v2/src/execute/liquidate.rs.
use democratized_prime_smart.Map
use democratized_prime_smart.U128
use democratized_prime_smart.Attributes.{validate_single_coin_denom}
use democratized_prime_smart.Borrowing.{scaled_repayment}
use democratized_prime_smart.Contract.{ContractState}
use democratized_prime_smart.Cosmwasm.{Cosmwasm}
use democratized_prime_smart.DirectedSale.{get_directed_sale_offer, is_live, is_seize_within_offer}
use democratized_prime_smart.Health.{get_borrower_health, is_liquidatable}
use democratized_prime_smart.Host.{AssetPrice, Env, Host, MessageInfo, Msg, bank_send}
use democratized_prime_smart.Lending.{lending_coins}
use democratized_prime_smart.Map.{Map}
use democratized_prime_smart.Pool.{
  DirectedSaleOffer, Pool, get_borrower_collateral, get_scaled_borrow,
}
use democratized_prime_smart.Prelude.{
  Bool, List, Option, Result, [], ensure, false, if◌then◌else◌, illegal_argument, illegal_state,
  ltb, min, none, not, not_found, ok, or_err, some, ℕ, ◌&&◌, ◌-◌, ◌>>=◌, ◌>>◌, ◌||◌, ◌∷◌,
}
use democratized_prime_smart.Price.{is_zero_price}
use democratized_prime_smart.PriceFeed.{LiquidationPrices, get_asset_prices_for_liquidation}
use democratized_prime_smart.Reserve.{ReserveState}
use democratized_prime_smart.Scaling.{scaled_to_underlying_borrow, scaled_to_underlying_borrow_ceil}

-- what is known of the borrower before anything is repaid
pub record Position : Type 0 where
  pub scaled_debt : ℕ
  pub debt_underlying : ℕ
  pub debt_payoff : ℕ
  pub collateral : Map ℕ
  pub quoted : LiquidationPrices
  pub stored_offer : Option DirectedSaleOffer
  pub directed_fill : Bool
  pub price_lending : AssetPrice

-- what is repaid, and the scaled debt that is left
pub record Payment : Type 0 where
  pub sent : ℕ
  pub actual_repay : ℕ
  pub scaled_repay : ℕ
  pub new_scaled_debt : ℕ

-- whether the seizure is a fill of a live offer
unfoldable pub fills : Option DirectedSaleOffer → ℕ → Map ℕ → Bool
fills none now seize = false
fills (some offer) now seize = is_live offer now && is_seize_within_offer offer.amounts seize

module _ ⦃c : Cosmwasm⦄ (host : Host) where
  unfoldable pub find_position : Pool → Env → ReserveState → ℕ → Map ℕ → Result Position
  find_position pool env reserve borrower collateral_to_seize = do
    let contract = pool.contract
    let scaled_debt = get_scaled_borrow pool borrower
    ensure (ltb 0 scaled_debt) illegal_argument
    debt_underlying ← scaled_to_underlying_borrow scaled_debt reserve.borrow_index
    debt_payoff ← scaled_to_underlying_borrow_ceil scaled_debt reserve.borrow_index
    ensure (ltb 0 debt_underlying) illegal_argument
    let collateral = get_borrower_collateral pool borrower
    ensure (not (Map.is_empty collateral)) illegal_argument
    quoted ← get_asset_prices_for_liquidation host env.block_time contract collateral
    (health, _) ←
        get_borrower_health contract contract.supported_collateral_assets quoted.prices collateral
          debt_underlying
    let stored_offer = get_directed_sale_offer pool borrower
    let directed_fill = fills stored_offer env.block_time collateral_to_seize
    ensure (directed_fill || is_liquidatable health) illegal_argument
    price_lending ← or_err (Map.lookup contract.lending_denom.name quoted.prices) not_found
    ensure (not (is_zero_price price_lending)) illegal_state
    ok (record {
      scaled_debt = scaled_debt;
      debt_underlying = debt_underlying;
      debt_payoff = debt_payoff;
      collateral = collateral;
      quoted = quoted;
      stored_offer = stored_offer;
      directed_fill = directed_fill;
      price_lending = price_lending;
    })

module _ ⦃c : Cosmwasm⦄ where
  unfoldable pub take_payment :
      MessageInfo → ContractState → ReserveState → Position → Result Payment
  take_payment info contract reserve position = do
    sent ← validate_single_coin_denom info contract.lending_denom 1
    let actual_repay = min sent position.debt_payoff
    scaled_repay ←
        scaled_repayment actual_repay position.debt_payoff position.scaled_debt reserve.borrow_index
    ensure (ltb 0 scaled_repay) illegal_argument
    new_scaled_debt ← or_err (U128.checked_sub position.scaled_debt scaled_repay) illegal_state
    ok (record {
      sent = sent;
      actual_repay = actual_repay;
      scaled_repay = scaled_repay;
      new_scaled_debt = new_scaled_debt;
    })

-- what was sent beyond the payment goes back
unfoldable pub refund : ℕ → ContractState → Payment → List Msg
refund sender contract payment =
    if ltb payment.actual_repay payment.sent
    then bank_send sender (lending_coins contract (payment.sent - payment.actual_repay)) ∷ []
    else []
