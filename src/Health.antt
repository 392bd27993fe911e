-- ===== src/Health.antt =====
-- Loan-to-value and borrower health: contracts/pool_v2/src/utils/health.rs and model/health.rs.
pub mod Bounds
use democratized_prime_smart.Map
use democratized_prime_smart.Contract.{CollateralAsset, ContractState}
use democratized_prime_smart.Cosmwasm.{Cosmwasm, decimal_one}
use democratized_prime_smart.Host.{AssetPrice}
use democratized_prime_smart.Map.{Map}
use democratized_prime_smart.Prelude.{
  Bool, List, Option, Result, [], checked_from_ratio, ensure, err, false, get_or, if◌then◌else◌,
  illegal_argument, leb, ltb, none, not, not_found, ok, or_err, overflow_error, panicked, some,
  true, ℕ, ◌&&◌, ◌*◌, ◌==◌, ◌>>=◌, ◌>>◌, ◌∷◌,
}
use democratized_prime_smart.Price.{is_zero_price, value_usd}

pub data BorrowerHealth : Type 0 where
  healthy unhealthy liquidatable : BorrowerHealth

abbrev pub is_healthy : BorrowerHealth → Bool
is_healthy healthy = true
is_healthy _ = false

abbrev pub is_liquidatable : BorrowerHealth → Bool
is_liquidatable liquidatable = true
is_liquidatable _ = false

-- the haircut of the first entry for the asset, or 100%
unfoldable pub haircut_percentage : List CollateralAsset → ℕ → ℕ
haircut_percentage [] asset_id = decimal_one
haircut_percentage (a ∷ assets) asset_id =
    if a.asset_id == asset_id
    then get_or decimal_one a.haircut
    else haircut_percentage assets asset_id

-- Unhealthy only strictly above the margin rate.
unfoldable pub get_health_from_ltv : ContractState → ℕ → BorrowerHealth
get_health_from_ltv contract ltv =
    if leb contract.liquidation_rate ltv
    then liquidatable
    else if ltb contract.margin_rate ltv
    then unhealthy
    else healthy

module _ ⦃c : Cosmwasm⦄ where
  open c use {checked_add, checked_mul, checked_div}

  -- one holding's haircutted value; a missing or zero price is skipped
  holding_value : Option AssetPrice → ℕ → ℕ → Result (Option ℕ)
  holding_value none haircut amount = ok none
  holding_value (some price) haircut amount = if is_zero_price price then ok none else (do
    value ← value_usd price amount
    haircutted ← or_err (checked_mul value haircut) overflow_error
    ok (some haircutted))

  add_value : ℕ → Option ℕ → Result ℕ
  add_value total none = ok total
  add_value total (some value) = or_err (checked_add total value) panicked

  -- the loop, from the total so far
  total_from : Map AssetPrice → List CollateralAsset → ℕ → Map ℕ → Result ℕ
  unfolding holding_value add_value
  total_from prices assets total [] = ok total
  total_from prices assets total ((id, amount) ∷ holdings) = do
    value ← holding_value (Map.lookup id prices) (haircut_percentage assets id) amount
    total' ← add_value total value
    total_from prices assets total' holdings

  unfoldable pub calculate_total_collateral_value_usd :
      Map ℕ → Map AssetPrice → List CollateralAsset → Result ℕ
  unfolding total_from
  calculate_total_collateral_value_usd collateral prices assets =
      total_from prices assets 0 collateral

  unfoldable pub calculate_borrow_value_usd : ℕ → ℕ → Map AssetPrice → Result ℕ
  calculate_borrow_value_usd underlying_debt lending_denom prices =
      if underlying_debt == 0 then ok 0 else (do
        price ← or_err (Map.lookup lending_denom prices) not_found
        ensure (not (is_zero_price price)) illegal_argument
        value_usd price underlying_debt)

  unfoldable pub calculate_ltv :
      ContractState → List CollateralAsset → Map AssetPrice → Map ℕ → ℕ → Result ℕ
  calculate_ltv contract assets prices collateral underlying_debt = do
    borrow_usd ← calculate_borrow_value_usd underlying_debt contract.lending_denom.name prices
    collateral_usd ← calculate_total_collateral_value_usd collateral prices assets
    if borrow_usd == 0 && collateral_usd == 0
        then ok 0
        else if collateral_usd == 0
        then ok decimal_one
        else or_err (checked_div borrow_usd collateral_usd) checked_from_ratio

  unfoldable pub get_borrower_health :
      ContractState
      → List CollateralAsset
      → Map AssetPrice
      → Map ℕ
      → ℕ
      → Result (BorrowerHealth × ℕ)
  get_borrower_health contract assets prices collateral underlying_debt = do
    ltv ← calculate_ltv contract assets prices collateral underlying_debt
    ok (get_health_from_ltv contract ltv, ltv)

  -- The percentages of the message are computed first, and can overflow.
  unfoldable pub validate_borrower_is_healthy :
      BorrowerHealth → ℕ → ContractState → Result (Unit {0})
  validate_borrower_is_healthy healthy ltv contract = ok tt
  validate_borrower_is_healthy unhealthy ltv contract = do
    _ ← or_err (checked_mul contract.margin_rate (100 * decimal_one)) overflow_error
    _ ← or_err (checked_mul ltv (100 * decimal_one)) overflow_error
    err illegal_argument
  validate_borrower_is_healthy liquidatable ltv contract = do
    _ ← or_err (checked_mul contract.liquidation_rate (100 * decimal_one)) overflow_error
    _ ← or_err (checked_mul ltv (100 * decimal_one)) overflow_error
    err illegal_argument
