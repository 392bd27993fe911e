-- ===== src/Collateral.antt =====
-- Collateral of the borrowers: contracts/pool_v2/src/execute/add_collateral.rs and
-- remove_collateral.rs, and the limit of types in utils/validation.rs.
pub mod Effects
pub mod Settling
pub mod Totals
use democratized_prime_smart.Map
use democratized_prime_smart.U128
use democratized_prime_smart.Attributes.{validate_account_attrs}
use democratized_prime_smart.Contract.{CollateralAsset, ContractState}
use democratized_prime_smart.Cosmwasm.{Cosmwasm}
use democratized_prime_smart.Health.{get_borrower_health, validate_borrower_is_healthy}
use democratized_prime_smart.Host.{Coin, Env, Host, MessageInfo, bank_send, no_funds}
use democratized_prime_smart.Map.{Map}
use democratized_prime_smart.Pool.{
  Pool, add_total_collateral, get_borrower_collateral, get_borrower_require_commit,
  get_scaled_borrow, set_borrower_collateral, subtract_total_collateral,
}
use democratized_prime_smart.Prelude.{
  Bool, List, Result, [], ensure, false, if◌then◌else◌, illegal_argument, illegal_state,
  invalid_funds, leb, length, ltb, none, not, ok, or_err, true, ℕ, ◌+◌, ◌==◌, ◌>>=◌, ◌>>◌, ◌^◌,
  ◌||◌, ◌∷◌,
}
use democratized_prime_smart.PriceFeed.{
  get_asset_prices_for_borrower, keys, mem, require_fresh_asset_prices,
}
use democratized_prime_smart.Responses.{Outcome, attach_rates, commit_if, update_reserve_indexes}
use democratized_prime_smart.Scaling.{scaled_to_underlying_borrow}

-- `supported_ids.contains`
unfoldable pub is_supported : List CollateralAsset → ℕ → Bool
is_supported [] id = false
is_supported (a ∷ assets) id = id == a.asset_id || is_supported assets id

-- the coins that are sent: positive, of supported assets
check_coins : List CollateralAsset → List Coin → Result (Unit {0})
unfolding is_supported
check_coins assets [] = ok tt
check_coins assets (coin ∷ coins) = do
  ensure (not (coin.amount == 0)) illegal_argument
  ensure (is_supported assets coin.denom) illegal_argument
  check_coins assets coins

-- the denoms that the borrower does not hold yet
new_denoms : Map ℕ → List Coin → List ℕ
new_denoms current [] = []
new_denoms current (coin ∷ coins) =
    let rest = new_denoms current coins in
    if Map.contains coin.denom current then rest else coin.denom ∷ rest

-- the number of distinct denoms among the coins, beside those already seen
count_distinct : List Coin → List ℕ → ℕ
count_distinct [] seen = 0
count_distinct (coin ∷ coins) seen =
    (if mem coin.denom seen then 0 else 1) + count_distinct coins (coin.denom ∷ seen)

unfoldable pub validate_borrower_collateral_type_limit : List Coin → Map ℕ → ℕ → Result (Unit {0})
unfolding count_distinct
validate_borrower_collateral_type_limit coins existing max_types = do
  let n = count_distinct coins (keys existing) + length (keys existing)
  ensure (ltb n (2 ^ 32)) illegal_state
  ensure (leb n max_types) illegal_argument

module _ ⦃c : Cosmwasm⦄ where
  open c use {uint128_checked_add}

  -- the coins added to the borrower's map
  pub add_amounts : Map ℕ → List Coin → Result (Map ℕ)
  add_amounts current [] = ok current
  add_amounts current (coin ∷ coins) = do
    let cur = Map.get coin.denom current
    new_amount ← or_err (uint128_checked_add cur coin.amount) illegal_state
    add_amounts (Map.insert coin.denom new_amount current) coins

-- the coins added to the totals of the assets
pub add_totals : Pool → List Coin → Result Pool
add_totals pool [] = ok pool
add_totals pool (coin ∷ coins) = do
  pool' ← add_total_collateral pool coin.denom coin.amount
  add_totals pool' coins

-- the amounts taken from the borrower's map
pub remove_amounts : List CollateralAsset → Map ℕ → Map ℕ → Result (Map ℕ)
unfolding is_supported
remove_amounts assets new_amounts [] = ok new_amounts
remove_amounts assets new_amounts ((denom, amount) ∷ to_remove) = do
  ensure (not (amount == 0)) illegal_argument
  ensure (is_supported assets denom) illegal_argument
  let cur = Map.get denom new_amounts
  ensure (leb amount cur) illegal_argument
  remaining ← or_err (U128.checked_sub cur amount) illegal_state
  remove_amounts assets (Map.store denom remaining new_amounts) to_remove

-- the amounts taken from the totals of the assets
pub subtract_totals : Pool → Map ℕ → Result Pool
subtract_totals pool [] = ok pool
subtract_totals pool ((denom, amount) ∷ to_remove) = do
  pool' ← subtract_total_collateral pool denom amount
  subtract_totals pool' to_remove

abbrev pub coins_of : Map ℕ → List Coin
coins_of [] = []
coins_of ((denom, amount) ∷ m) = record { denom = denom; amount = amount } ∷ coins_of m

abbrev is_nil : List Coin → Bool
is_nil [] = true
is_nil (_ ∷ _) = false

module _ ⦃c : Cosmwasm⦄ (host : Host) where
  unfoldable pub add_collateral : Pool → Env → MessageInfo → Outcome
  unfolding check_coins new_denoms add_amounts add_totals
  add_collateral pool env info = do
    let contract = pool.contract
    validate_account_attrs host info.sender contract.borrower_required_attrs
    let borrower = info.sender
    let new_collateral = info.funds
    ensure (not (is_nil new_collateral)) illegal_argument
    check_coins contract.supported_collateral_assets new_collateral
    let current = get_borrower_collateral pool borrower
    require_fresh_asset_prices host env.block_time contract.price_oracle_address
        (new_denoms current new_collateral)
    validate_borrower_collateral_type_limit new_collateral current
        contract.max_borrower_collateral_types
    current' ← add_amounts current new_collateral
    pool' ← add_totals (set_borrower_collateral pool borrower current') new_collateral
    ok (pool', record { messages = []; rates = none })

  -- the health check where the borrower has debt
  check_remaining : Env → ContractState → Map ℕ → ℕ → Result (Unit {0})
  check_remaining env contract collateral debt =
      if ltb 0 debt
      then (do
        prices ← get_asset_prices_for_borrower host env.block_time contract collateral
        (health, ltv) ←
            get_borrower_health contract contract.supported_collateral_assets prices collateral debt
        validate_borrower_is_healthy health ltv contract)
      else ok tt

  unfoldable pub remove_collateral : Pool → Env → MessageInfo → Map ℕ → Outcome
  unfolding remove_amounts subtract_totals check_remaining
  remove_collateral pool env info to_remove = do
    let contract = pool.contract
    ensure (no_funds info) invalid_funds
    validate_account_attrs host info.sender contract.borrower_required_attrs
    ensure (not (Map.is_empty to_remove)) illegal_argument
    let borrower = info.sender
    let current = get_borrower_collateral pool borrower
    let commit_funds = get_borrower_require_commit pool borrower
    new_amounts ← remove_amounts contract.supported_collateral_assets current to_remove
    (pool1, reserve) ← update_reserve_indexes pool env contract.rate_params
    debt_underlying ←
        scaled_to_underlying_borrow (get_scaled_borrow pool1 borrower) reserve.borrow_index
    check_remaining env contract new_amounts debt_underlying
    pool2 ← subtract_totals (set_borrower_collateral pool1 borrower new_amounts) to_remove
    let coins = coins_of to_remove
    commit ← commit_if commit_funds contract env.contract_address borrower coins
    attach_rates pool2 (bank_send borrower coins ∷ commit) reserve contract.rate_params
