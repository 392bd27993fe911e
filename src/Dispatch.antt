-- ===== src/Dispatch.antt =====
-- The messages of the pool and their dispatch: `ExecuteMsg` of contracts/pool_v2/src/msg/execute.rs and
-- `execute` of contracts/pool_v2/src/contract.rs.
pub mod Paused
use democratized_prime_smart.Borrowing.{borrow, repay}
use democratized_prime_smart.Collateral.{add_collateral, remove_collateral}
use democratized_prime_smart.Configuration.{
  execute_set_borrower_require_commit, execute_set_lender_require_commit_on_exit,
  execute_update_ownership, set_borrower_required_attrs, set_lender_required_attrs,
  set_operational_state, update_rate_params, update_supported_collateral,
}
use democratized_prime_smart.Configuration.Update.{
  UpdateContractConfigParams, update_contract_config,
}
use democratized_prime_smart.Contract.{CollateralAsset, OperationalState, frozen, paused}
use democratized_prime_smart.Cosmwasm.{Cosmwasm}
use democratized_prime_smart.DirectedSale.{adjust_directed_collateral_sale, ℤ}
use democratized_prime_smart.Host.{Env, Host, MessageInfo, OwnershipAction}
use democratized_prime_smart.Lending.{ReceivePayload, execute_withdraw, lend, receive}
use democratized_prime_smart.Liquidation.{liquidate}
use democratized_prime_smart.Map.{Map}
use democratized_prime_smart.Pool.{Pool}
use democratized_prime_smart.Prelude.{
  Bool, List, Option, ensure, false, illegal_state, not, true, ℕ, ◌>>=◌, ◌>>◌, ◌||◌,
}
use democratized_prime_smart.RateParams.{RateParams}
use democratized_prime_smart.Responses.{Outcome}
use democratized_prime_smart.Treasury.{
  EliminateDeficitFunding, eliminate_deficit, socialize_deficit, withdraw_reserve,
}

pub data ExecuteMsg : Type 0 where
  lend_msg repay_msg add_collateral_msg : ExecuteMsg
  receive_msg : ℕ → ℕ → Option ReceivePayload → ExecuteMsg
  borrow_msg : ℕ → ExecuteMsg
  remove_collateral_msg : Map ℕ → ExecuteMsg
  adjust_directed_collateral_sale_msg : Map ℤ → ℕ → ℕ → ExecuteMsg
  liquidate_msg : ℕ → Map ℕ → ExecuteMsg
  update_supported_collateral_msg : List CollateralAsset → List ℕ → ExecuteMsg
  withdraw_reserve_msg : Option ℕ → ExecuteMsg
  eliminate_deficit_msg : EliminateDeficitFunding → ExecuteMsg
  socialize_deficit_msg : ℕ → ExecuteMsg
  set_operational_state_msg : OperationalState → ExecuteMsg
  update_ownership_msg : OwnershipAction → ExecuteMsg
  set_lender_required_attrs_msg : List (List ℕ) → ExecuteMsg
  set_borrower_required_attrs_msg : List (List ℕ) → ExecuteMsg
  update_contract_config_msg : UpdateContractConfigParams → ExecuteMsg
  update_rate_params_msg : RateParams → ExecuteMsg
  set_borrower_require_commit_msg : ℕ → Option Bool → ExecuteMsg
  set_lender_require_commit_on_exit_msg : ℕ → Option Bool → ExecuteMsg
  withdraw_msg : ℕ → Option ℕ → Option Bool → ExecuteMsg

-- the configuration and the ownership can change while the pool is paused
unfoldable pub allowed_when_paused : ExecuteMsg → Bool
allowed_when_paused (update_supported_collateral_msg _ _) = true
allowed_when_paused (set_operational_state_msg _) = true
allowed_when_paused (update_ownership_msg _) = true
allowed_when_paused (set_lender_required_attrs_msg _) = true
allowed_when_paused (set_borrower_required_attrs_msg _) = true
allowed_when_paused (set_borrower_require_commit_msg _ _) = true
allowed_when_paused (set_lender_require_commit_on_exit_msg _ _) = true
allowed_when_paused (update_contract_config_msg _) = true
allowed_when_paused (update_rate_params_msg _) = true
allowed_when_paused _ = false

unfoldable pub disabled_when_frozen : ExecuteMsg → Bool
disabled_when_frozen lend_msg = true
disabled_when_frozen (borrow_msg _) = true
disabled_when_frozen _ = false

abbrev pub is_paused : OperationalState → Bool
is_paused paused = true
is_paused _ = false

abbrev pub is_frozen : OperationalState → Bool
is_frozen frozen = true
is_frozen _ = false

module _ ⦃c : Cosmwasm⦄ (host : Host) where
  -- the handler of a message
  unfoldable pub dispatch : Pool → Env → MessageInfo → ExecuteMsg → Outcome
  dispatch pool env info lend_msg = lend host pool env info
  dispatch pool env info repay_msg = repay pool env info
  dispatch pool env info add_collateral_msg = add_collateral host pool env info
  dispatch pool env info (receive_msg sender amount msg) =
      receive host pool env info sender amount msg
  dispatch pool env info (borrow_msg amount) = borrow host pool env info amount
  dispatch pool env info (remove_collateral_msg to_remove) =
      remove_collateral host pool env info to_remove
  dispatch pool env info (adjust_directed_collateral_sale_msg adjustments expires_at version) =
      adjust_directed_collateral_sale pool env info adjustments expires_at version
  dispatch pool env info (liquidate_msg borrower seize) =
      liquidate host pool env info borrower seize
  dispatch pool env info (update_supported_collateral_msg to_update to_remove) =
      update_supported_collateral host pool info to_update to_remove
  dispatch pool env info (withdraw_reserve_msg recipient) =
      withdraw_reserve host pool env info recipient
  dispatch pool env info (eliminate_deficit_msg funding) =
      eliminate_deficit host pool env info funding
  dispatch pool env info (socialize_deficit_msg max_amount) =
      socialize_deficit host pool env info max_amount
  dispatch pool env info (set_operational_state_msg state) =
      set_operational_state host pool info state
  dispatch pool env info (update_ownership_msg action) =
      execute_update_ownership host pool env info action
  dispatch pool env info (set_lender_required_attrs_msg attrs) =
      set_lender_required_attrs pool info attrs
  dispatch pool env info (set_borrower_required_attrs_msg attrs) =
      set_borrower_required_attrs pool info attrs
  dispatch pool env info (update_contract_config_msg params) =
      update_contract_config host pool info params
  dispatch pool env info (update_rate_params_msg rate_params) =
      update_rate_params pool env info rate_params
  dispatch pool env info (set_borrower_require_commit_msg address require) =
      execute_set_borrower_require_commit host pool info address require
  dispatch pool env info (set_lender_require_commit_on_exit_msg address require) =
      execute_set_lender_require_commit_on_exit host pool info address require
  dispatch pool env info (withdraw_msg lender amount commit_funds) =
      execute_withdraw host pool env info lender amount commit_funds

  unfoldable pub execute : Pool → Env → MessageInfo → ExecuteMsg → Outcome
  execute pool env info msg = do
    let state = pool.contract.operational_state
    ensure (allowed_when_paused msg || not (is_paused state)) illegal_state
    ensure (not (is_frozen state) || not (disabled_when_frozen msg)) illegal_state
    dispatch pool env info msg
