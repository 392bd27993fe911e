-- ===== src/Treasury.antt =====
-- The owner's handling of the deficit and of the protocol's reserve: eliminate_deficit.rs,
-- socialize_deficit.rs and withdraw_reserve.rs in contracts/pool_v2/src/execute.
pub mod Deficit
pub mod Socialization
pub mod Effects
use democratized_prime_smart.U128
use democratized_prime_smart.Access.{assert_owner, current_owner}
use democratized_prime_smart.Attributes.{validate_single_coin_denom}
use democratized_prime_smart.Cosmwasm.{Cosmwasm}
use democratized_prime_smart.Haircut.{apply_pro_rata_liquidity_index_haircut}
use democratized_prime_smart.Host.{Env, Host, MessageInfo, Msg, bank_send, no_funds}
use democratized_prime_smart.Lending.{lending_coins}
use democratized_prime_smart.Pool.{Pool, set_reserve_state}
use democratized_prime_smart.Prelude.{
  List, Option, Result, [], ensure, if◌then◌else◌, illegal_argument, illegal_state, invalid_funds,
  ltb, min, none, ok, or_err, some, std, ℕ, ◌-◌, ◌==◌, ◌>>=◌, ◌>>◌, ◌∷◌,
}
use democratized_prime_smart.Reserve.{ReserveState, total_borrow, total_liquidity}
use democratized_prime_smart.Responses.{Outcome, attach_rates, update_reserve_indexes}
use democratized_prime_smart.Scaling.{reserve_totals_and_cash_u128}

-- contracts/pool_v2/src/msg/execute.rs
pub data EliminateDeficitFunding : Type 0 where
  accrued_reserve bank : ℕ → EliminateDeficitFunding

abbrev max_underlying : EliminateDeficitFunding → ℕ
max_underlying (accrued_reserve m) = m
max_underlying (bank m) = m

module _ ⦃c : Cosmwasm⦄ (host : Host) where
  -- the state of the reserve once the deficit is reduced, and what is sent back
  cover :
      EliminateDeficitFunding
      → Pool
      → MessageInfo
      → ReserveState
      → ℕ
      → Result (ReserveState × List Msg)
  cover (accrued_reserve _) pool info reserve max = do
    assert_owner host pool info.sender
    ensure (no_funds info) invalid_funds
    let clear = min (min reserve.deficit_underlying max) reserve.accrued_reserve
    ensure (ltb 0 clear) illegal_state
    deficit ← or_err (U128.checked_sub reserve.deficit_underlying clear) illegal_state
    accrued ← or_err (U128.checked_sub reserve.accrued_reserve clear) illegal_state
    ok (record reserve { deficit_underlying = deficit; accrued_reserve = accrued }, [])
  cover (bank _) pool info reserve max = do
    received ← validate_single_coin_denom info pool.contract.lending_denom 1
    let applied = min (min reserve.deficit_underlying max) received
    ensure (ltb 0 applied) illegal_state
    deficit ← or_err (U128.checked_sub reserve.deficit_underlying applied) illegal_state
    let refund = received - applied
    ok (
      record reserve { deficit_underlying = deficit },
      (if ltb 0 refund
          then bank_send info.sender (lending_coins pool.contract refund) ∷ []
          else []),
    )

  unfoldable pub eliminate_deficit : Pool → Env → MessageInfo → EliminateDeficitFunding → Outcome
  unfolding cover
  eliminate_deficit pool env info funding = do
    let contract = pool.contract
    (pool1, reserve) ← update_reserve_indexes pool env contract.rate_params
    ensure (ltb 0 reserve.deficit_underlying) illegal_argument
    let max = max_underlying funding
    ensure (ltb 0 max) illegal_argument
    (reserve', messages) ← cover funding pool1 info reserve max
    attach_rates (set_reserve_state pool1 reserve') messages reserve' contract.rate_params

  unfoldable pub socialize_deficit : Pool → Env → MessageInfo → ℕ → Outcome
  socialize_deficit pool env info max_amount = do
    let contract = pool.contract
    assert_owner host pool info.sender
    ensure (no_funds info) invalid_funds
    (pool1, reserve) ← update_reserve_indexes pool env contract.rate_params
    ensure (ltb 0 max_amount) illegal_argument
    let amt = min max_amount reserve.deficit_underlying
    ensure (ltb 0 amt) illegal_state
    cut ← apply_pro_rata_liquidity_index_haircut reserve amt
    deficit ← or_err (U128.checked_sub cut.deficit_underlying amt) illegal_state
    let reserve' = record cut { deficit_underlying = deficit }
    attach_rates (set_reserve_state pool1 reserve') [] reserve' contract.rate_params

  -- the recipient, or the owner
  recipient_of : Option ℕ → Pool → Result ℕ
  recipient_of (some addr) pool = or_err (host.addr_validate addr) std
  recipient_of none pool = current_owner pool

  unfoldable pub withdraw_reserve : Pool → Env → MessageInfo → Option ℕ → Outcome
  unfolding recipient_of
  withdraw_reserve pool env info recipient = do
    let contract = pool.contract
    assert_owner host pool info.sender
    ensure (no_funds info) invalid_funds
    to_address ← recipient_of recipient pool
    (pool1, reserve) ← update_reserve_indexes pool env contract.rate_params
    ensure (reserve.deficit_underlying == 0) illegal_state
    ensure (ltb 0 reserve.accrued_reserve) illegal_state
    (total_liquidity, total_borrow, _) ← reserve_totals_and_cash_u128 reserve
    bank_balance ← or_err (host.query_balance env.contract_address contract.lending_denom.name) std
    let booked = reserve.accrued_reserve
    assets ← or_err (U128.checked_add bank_balance total_borrow) illegal_state
    let free = assets - total_liquidity
    let backed = min booked free
    let pay = min backed bank_balance
    ensure (ltb 0 pay) illegal_state
    writeoff ← or_err (U128.checked_sub booked backed) illegal_state
    remainder ← or_err (U128.checked_sub backed pay) illegal_state
    let reserve' = record reserve { accrued_reserve = remainder }
    attach_rates (set_reserve_state pool1 reserve')
        (bank_send to_address (lending_coins contract pay) ∷ []) reserve' contract.rate_params
