-- ===== src/Lending.antt =====
-- The lenders' handlers: contracts/pool_v2/src/execute/lend.rs, withdraw.rs, transfer.rs and receive.rs.
pub mod Burning
pub mod Effects
pub mod Payouts
pub mod Withdrawals
use democratized_prime_smart.U128
use democratized_prime_smart.Access.{assert_owner}
use democratized_prime_smart.Accrual.{compute_effective_reserve}
use democratized_prime_smart.Attributes.{validate_account_attrs, validate_single_coin_denom}
use democratized_prime_smart.Contract.{ContractState, repo_token_addr}
use democratized_prime_smart.Cosmwasm.{Cosmwasm}
use democratized_prime_smart.Host.{
  Coin, Env, Host, MessageInfo, Msg, bank_send, burn, burn_from, mint, no_funds, token_transfer,
}
use democratized_prime_smart.Pool.{Pool, get_lender_require_commit_on_exit, set_reserve_state}
use democratized_prime_smart.Prelude.{
  Bool, List, Option, Result, [], ensure, false, if◌then◌else◌, illegal_argument, illegal_state,
  invalid_funds, leb, ltb, none, not, ok, or_err, overflow_error, some, std, true, ℕ, ◌&&◌, ◌++◌,
  ◌==◌, ◌>>=◌, ◌>>◌, ◌||◌, ◌∷◌,
}
use democratized_prime_smart.Reserve.{ReserveState, cash, total_liquidity}
use democratized_prime_smart.Responses.{Outcome, attach_rates, commit_if, update_reserve_indexes}
use democratized_prime_smart.Scaling.{
  reserve_totals_and_cash_u128, scaled_to_underlying_liquidity, underlying_to_scaled_liquidity,
}

-- the payload of a CW20 `Send` to the pool: contracts/pool_v2/src/msg/execute.rs
pub data ReceivePayload : Type 0 where
  withdraw : ℕ → Option Bool → ReceivePayload
  withdraw_exact : Option Bool → ReceivePayload
  transfer : ℕ → ℕ → ReceivePayload
  transfer_exact : ℕ → ReceivePayload

-- `commit_funds == Some(true)`
abbrev pub is_some_true : Option Bool → Bool
is_some_true (some b) = b
is_some_true none = false

-- what a withdrawal burns and what it pays
pub record Payout : Type 0 where
  pub scaled_to_burn : ℕ
  pub underlying_to_send : ℕ

abbrev pub lending_coins : ContractState → ℕ → List Coin
lending_coins contract amount = record { denom = contract.lending_denom.name; amount = amount } ∷ []

-- `deduct_scaled_liquidity_and_save`
unfoldable pub deduct_scaled_liquidity_and_save :
    Pool → ReserveState → ℕ → Result (Pool × ReserveState)
deduct_scaled_liquidity_and_save pool reserve scaled_to_burn = do
  total ← or_err (U128.checked_sub reserve.total_scaled_liquidity scaled_to_burn) illegal_state
  let reserve' = record reserve { total_scaled_liquidity = total }
  ok (set_reserve_state pool reserve', reserve')

module _ ⦃c : Cosmwasm⦄ where
  open c use {uint128_checked_sub}

  -- by the amount that the owner asks for, or all of the lender's balance
  unfoldable pub owner_payout : Option ℕ → ℕ → ℕ → ReserveState → Result Payout
  owner_payout (some amt) scaled_balance cash reserve = do
    underlying_max ← scaled_to_underlying_liquidity scaled_balance reserve.liquidity_index
    ensure (not (amt == 0)) illegal_argument
    ensure (leb amt underlying_max) illegal_argument
    ensure (leb amt cash) illegal_argument
    scaled ← underlying_to_scaled_liquidity amt reserve.liquidity_index
    actual_underlying ← scaled_to_underlying_liquidity scaled reserve.liquidity_index
    ok (record { scaled_to_burn = scaled; underlying_to_send = actual_underlying })
  owner_payout none scaled_balance cash reserve = do
    underlying_max ← scaled_to_underlying_liquidity scaled_balance reserve.liquidity_index
    ensure (leb underlying_max cash) illegal_argument
    actual_underlying ← scaled_to_underlying_liquidity scaled_balance reserve.liquidity_index
    ok (record { scaled_to_burn = scaled_balance; underlying_to_send = actual_underlying })

  -- by the repo tokens received: all of them, or as many as the amount asked for needs
  unfoldable pub received_payout : Bool → Option ℕ → ℕ → ℕ → ReserveState → Result Payout
  received_payout true amount_underlying received_scaled cash reserve = do
    underlying ← scaled_to_underlying_liquidity received_scaled reserve.liquidity_index
    ensure (leb underlying cash) illegal_argument
    ok (record { scaled_to_burn = received_scaled; underlying_to_send = underlying })
  received_payout false amount_underlying received_scaled cash reserve = do
    amount ← or_err amount_underlying illegal_argument
    ensure (not (amount == 0)) illegal_argument
    ensure (leb amount cash) illegal_argument
    scaled ← underlying_to_scaled_liquidity amount reserve.liquidity_index
    ensure (leb scaled received_scaled) illegal_argument
    underlying ← scaled_to_underlying_liquidity scaled reserve.liquidity_index
    ok (record { scaled_to_burn = scaled; underlying_to_send = underlying })

  -- what a transfer of repo tokens passes on
  unfoldable pub scaled_to_pass : Bool → Option ℕ → ℕ → ReserveState → Result ℕ
  scaled_to_pass true amount_underlying received_scaled reserve = ok received_scaled
  scaled_to_pass false amount_underlying received_scaled reserve = do
    amount ← or_err amount_underlying illegal_argument
    ensure (not (amount == 0)) illegal_argument
    scaled ← underlying_to_scaled_liquidity amount reserve.liquidity_index
    ensure (leb scaled received_scaled) illegal_argument
    ok scaled

  -- the refund of repo tokens beyond those used
  unfoldable pub refund_of : Bool → ℕ → ℕ → ℕ → ℕ → Result (List Msg)
  refund_of exact repo_token to received used =
      if not exact && ltb used received
      then (do
        refund ← or_err (uint128_checked_sub received used) overflow_error
        ok (token_transfer repo_token to refund ∷ []))
      else ok []

module _ ⦃c : Cosmwasm⦄ (host : Host) where
  unfoldable pub lend : Pool → Env → MessageInfo → Outcome
  lend pool env info = do
    let contract = pool.contract
    repo_token ← repo_token_addr contract
    validate_account_attrs host info.sender contract.lender_required_attrs
    amount ← validate_single_coin_denom info contract.lending_denom contract.min_lend
    (pool1, reserve) ← update_reserve_indexes pool env contract.rate_params
    scaled_delta ← underlying_to_scaled_liquidity amount reserve.liquidity_index
    ensure (ltb 0 scaled_delta) illegal_argument
    let mint_msg = mint repo_token info.sender scaled_delta
    total ← or_err (U128.checked_add reserve.total_scaled_liquidity scaled_delta) illegal_state
    let reserve' = record reserve { total_scaled_liquidity = total }
    _ ← total_liquidity reserve'
    attach_rates (set_reserve_state pool1 reserve') (mint_msg ∷ []) reserve' contract.rate_params

  -- `ExecuteMsg::Withdraw`, by the owner
  unfoldable pub execute_withdraw : Pool → Env → MessageInfo → ℕ → Option ℕ → Option Bool → Outcome
  execute_withdraw pool env info lender amount commit_funds = do
    let contract = pool.contract
    repo_token ← repo_token_addr contract
    assert_owner host pool info.sender
    ensure (no_funds info) invalid_funds
    lender_addr ← or_err (host.addr_validate (host.trim lender)) std
    (pool1, reserve) ← update_reserve_indexes pool env contract.rate_params
    (_, _, cash) ← reserve_totals_and_cash_u128 reserve
    scaled_balance ← or_err (host.scaled_balance repo_token lender_addr) std
    ensure (ltb 0 scaled_balance) illegal_argument
    payout ← owner_payout amount scaled_balance cash reserve
    (pool2, reserve') ← deduct_scaled_liquidity_and_save pool1 reserve payout.scaled_to_burn
    let coins = lending_coins contract payout.underlying_to_send
    commit ← commit_if (is_some_true commit_funds) contract env.contract_address lender_addr coins
    attach_rates pool2
        (burn_from repo_token lender_addr payout.scaled_to_burn
          ∷ bank_send lender_addr coins
          ∷ commit)
        reserve' contract.rate_params

  -- `Withdraw` and `WithdrawExact` of a CW20 `Send`
  unfoldable pub execute_withdraw_cw20 :
      Pool → Env → ℕ → ℕ → Option ℕ → Bool → Option Bool → Outcome
  execute_withdraw_cw20 pool env sender received_scaled amount_underlying exact commit_funds = do
    ensure (ltb 0 received_scaled) illegal_argument
    let contract = pool.contract
    repo_token ← repo_token_addr contract
    let effective_require = get_lender_require_commit_on_exit pool sender
    ensure (not effective_require || is_some_true commit_funds) illegal_argument
    (pool1, reserve) ← update_reserve_indexes pool env contract.rate_params
    (_, _, cash) ← reserve_totals_and_cash_u128 reserve
    payout ← received_payout exact amount_underlying received_scaled cash reserve
    (pool2, reserve') ← deduct_scaled_liquidity_and_save pool1 reserve payout.scaled_to_burn
    let coins = lending_coins contract payout.underlying_to_send
    commit ← commit_if (is_some_true commit_funds) contract env.contract_address sender coins
    refund ← refund_of exact repo_token sender received_scaled payout.scaled_to_burn
    attach_rates pool2
        (burn repo_token payout.scaled_to_burn ∷ bank_send sender coins ∷ commit ++ refund) reserve'
        contract.rate_params

  -- `Transfer` and `TransferExact` of a CW20 `Send`
  unfoldable pub execute_transfer_cw20 : Pool → Env → ℕ → ℕ → ℕ → Option ℕ → Bool → Outcome
  execute_transfer_cw20 pool env sender received_scaled recipient amount_underlying exact = do
    ensure (ltb 0 received_scaled) illegal_argument
    let contract = pool.contract
    let effective_require = get_lender_require_commit_on_exit pool sender
    ensure (not effective_require) illegal_argument
    recipient_addr ← or_err (host.addr_validate recipient) std
    ensure (not (sender == recipient_addr)) illegal_argument
    repo_token ← repo_token_addr contract
    validate_account_attrs host recipient_addr contract.lender_required_attrs
    reserve ← compute_effective_reserve pool.reserve env.block_time contract.rate_params
    scaled_to_send ← scaled_to_pass exact amount_underlying received_scaled reserve
    refund ← refund_of exact repo_token sender received_scaled scaled_to_send
    attach_rates pool (token_transfer repo_token recipient scaled_to_send ∷ refund) reserve
        contract.rate_params

  unfoldable pub dispatch_payload : Pool → Env → ℕ → ℕ → ReceivePayload → Outcome
  dispatch_payload pool env sender received (withdraw amount commit_funds) =
      execute_withdraw_cw20 pool env sender received (some amount) false commit_funds
  dispatch_payload pool env sender received (withdraw_exact commit_funds) =
      execute_withdraw_cw20 pool env sender received none true commit_funds
  dispatch_payload pool env sender received (transfer recipient amount) =
      execute_transfer_cw20 pool env sender received recipient (some amount) false
  dispatch_payload pool env sender received (transfer_exact recipient) =
      execute_transfer_cw20 pool env sender received recipient none true

  -- `receive`, from the payload that was read; `none` is one that cannot be read
  unfoldable pub receive : Pool → Env → MessageInfo → ℕ → ℕ → Option ReceivePayload → Outcome
  unfolding dispatch_payload
  receive pool env info cw20_sender amount msg = do
    repo_token ← repo_token_addr pool.contract
    ensure (info.sender == repo_token) illegal_argument
    payload ← or_err msg illegal_argument
    sender ← or_err (host.addr_validate cw20_sender) std
    dispatch_payload pool env sender amount payload
