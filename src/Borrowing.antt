-- ===== src/Borrowing.antt =====
-- The borrowers' loans: contracts/pool_v2/src/execute/borrow.rs and repay.rs.
pub mod Effects
pub mod Closing
pub mod Repayment
use democratized_prime_smart.Map
use democratized_prime_smart.U128
use democratized_prime_smart.Attributes.{validate_account_attrs, validate_single_coin_denom}
use democratized_prime_smart.Contract.{ContractState}
use democratized_prime_smart.Cosmwasm.{Cosmwasm}
use democratized_prime_smart.Health.{get_borrower_health, validate_borrower_is_healthy}
use democratized_prime_smart.Host.{Env, Host, MessageInfo, Msg, bank_send, no_funds}
use democratized_prime_smart.Lending.{lending_coins}
use democratized_prime_smart.Map.{Map}
use democratized_prime_smart.Pool.{
  Pool, get_borrower_collateral, get_borrower_require_commit, get_scaled_borrow, set_reserve_state,
  set_scaled_borrow,
}
use democratized_prime_smart.Prelude.{
  Bool, List, Result, [], ensure, if◌then◌else◌, illegal_argument, illegal_state, invalid_funds,
  leb, ltb, min, not, ok, or_err, overflow_error, ℕ, ◌==◌, ◌>>=◌, ◌>>◌, ◌∷◌,
}
use democratized_prime_smart.PriceFeed.{get_asset_prices_for_borrower}
use democratized_prime_smart.Reserve.{cash, total_borrow}
use democratized_prime_smart.Responses.{Outcome, attach_rates, commit_if, update_reserve_indexes}
use democratized_prime_smart.Scaling.{
  debt_after_borrow, reserve_totals_and_cash_u128, scaled_to_underlying_borrow_ceil,
  underlying_to_scaled_borrow,
}

module _ ⦃c : Cosmwasm⦄ where
  open c use {uint128_checked_sub}

  -- what was sent beyond the repayment goes back, with a commit message if the borrower must commit
  refund_excess : Bool → ContractState → ℕ → ℕ → ℕ → ℕ → Result (List Msg)
  refund_excess commit_funds contract contract_address sender amount used =
      if ltb used amount
      then (do
        excess ← or_err (uint128_checked_sub amount used) overflow_error
        let coins = lending_coins contract excess
        commit ← commit_if commit_funds contract contract_address sender coins
        ok (bank_send sender coins ∷ commit))
      else ok []

  -- a full close takes all scaled debt, any other repayment what it entitles to
  unfoldable pub scaled_repayment : ℕ → ℕ → ℕ → ℕ → Result ℕ
  scaled_repayment repay_underlying payoff scaled_debt borrow_index =
      if leb payoff repay_underlying
      then ok scaled_debt
      else underlying_to_scaled_borrow repay_underlying borrow_index

  unfoldable pub repay : Pool → Env → MessageInfo → Outcome
  unfolding refund_excess
  repay pool env info = do
    let contract = pool.contract
    amount ← validate_single_coin_denom info contract.lending_denom 1
    (pool1, reserve) ← update_reserve_indexes pool env contract.rate_params
    let commit_funds = get_borrower_require_commit pool1 info.sender
    let scaled_debt = get_scaled_borrow pool1 info.sender
    ensure (ltb 0 scaled_debt) illegal_argument
    debt_underlying ← scaled_to_underlying_borrow_ceil scaled_debt reserve.borrow_index
    let repay_underlying = min amount debt_underlying
    scaled_repay ←
        scaled_repayment repay_underlying debt_underlying scaled_debt reserve.borrow_index
    ensure (ltb 0 scaled_repay) illegal_argument
    new_scaled ← or_err (U128.checked_sub scaled_debt scaled_repay) illegal_state
    let pool2 = set_scaled_borrow pool1 info.sender new_scaled
    total ← or_err (U128.checked_sub reserve.total_scaled_borrow scaled_repay) illegal_state
    let reserve' = record reserve { total_scaled_borrow = total }
    messages ←
        refund_excess commit_funds contract env.contract_address info.sender amount repay_underlying
    attach_rates (set_reserve_state pool2 reserve') messages reserve' contract.rate_params

module _ ⦃c : Cosmwasm⦄ (host : Host) where
  -- the health check of a borrow
  unfoldable pub check_health : Env → ContractState → Map ℕ → ℕ → Result (Unit {0})
  check_health env contract collateral debt = do
    prices ← get_asset_prices_for_borrower host env.block_time contract collateral
    (health, ltv) ←
        get_borrower_health contract contract.supported_collateral_assets prices collateral debt
    validate_borrower_is_healthy health ltv contract

  unfoldable pub borrow : Pool → Env → MessageInfo → ℕ → Outcome
  unfolding check_health
  borrow pool env info amount = do
    ensure (not (amount == 0)) illegal_argument
    let contract = pool.contract
    ensure (leb contract.min_borrow amount) illegal_argument
    ensure (no_funds info) invalid_funds
    validate_account_attrs host info.sender contract.borrower_required_attrs
    let commit_funds = get_borrower_require_commit pool info.sender
    (pool1, reserve) ← update_reserve_indexes pool env contract.rate_params
    (_, _, cash) ← reserve_totals_and_cash_u128 reserve
    ensure (leb amount cash) illegal_argument
    let collateral = get_borrower_collateral pool1 info.sender
    ensure (not (Map.is_empty collateral)) illegal_argument
    let current_scaled = get_scaled_borrow pool1 info.sender
    (scaled_delta, new_scaled, debt_after) ←
        debt_after_borrow current_scaled amount reserve.borrow_index
    check_health env contract collateral debt_after
    let pool2 = set_scaled_borrow pool1 info.sender new_scaled
    total ← or_err (U128.checked_add reserve.total_scaled_borrow scaled_delta) illegal_state
    let reserve' = record reserve { total_scaled_borrow = total }
    _ ← total_borrow reserve'
    let coins = lending_coins contract amount
    commit ← commit_if commit_funds contract env.contract_address info.sender coins
    attach_rates (set_reserve_state pool2 reserve') (bank_send info.sender coins ∷ commit) reserve'
        contract.rate_params
