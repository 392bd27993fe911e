-- ===== src/Dispatch/Paused.antt =====
-- What the dispatch lets through: the guards of `execute` in contracts/pool_v2/src/contract.rs.
use democratized_prime_smart.Configuration.Effects.{
  SettingsOnly, execute_set_borrower_require_commit-SettingsOnly,
  execute_set_lender_require_commit_on_exit-SettingsOnly, execute_update_ownership-SettingsOnly,
  set_borrower_required_attrs-SettingsOnly, set_lender_required_attrs-SettingsOnly,
  set_operational_state-SettingsOnly, update_contract_config-SettingsOnly,
  update_rate_params-SettingsOnly, update_supported_collateral-SettingsOnly,
}
use democratized_prime_smart.Contract.{paused}
use democratized_prime_smart.Cosmwasm.{Cosmwasm}
use democratized_prime_smart.Dispatch.{
  ExecuteMsg, add_collateral_msg, adjust_directed_collateral_sale_msg, allowed_when_paused,
  borrow_msg, disabled_when_frozen, dispatch, eliminate_deficit_msg, execute, is_frozen, is_paused,
  lend_msg, liquidate_msg, receive_msg, remove_collateral_msg, repay_msg,
  set_borrower_require_commit_msg, set_borrower_required_attrs_msg,
  set_lender_require_commit_on_exit_msg, set_lender_required_attrs_msg, set_operational_state_msg,
  socialize_deficit_msg, update_contract_config_msg, update_ownership_msg, update_rate_params_msg,
  update_supported_collateral_msg, withdraw_msg, withdraw_reserve_msg,
}
use democratized_prime_smart.Host.{Env, Host, MessageInfo}
use democratized_prime_smart.Pool.{Pool}
use democratized_prime_smart.Prelude.{
  Ensures, Ensures-ensure, arith, illegal_state, not, ok, true, ◌||◌, ◌≡◌,
}
use democratized_prime_smart.Responses.{Response}

module _ ⦃c : Cosmwasm⦄ (host : Host) (pool : Pool) (env : Env) (info : MessageInfo) where
  -- The messages that a paused pool accepts are the settings.
  pub settings_only :
      (msg : ExecuteMsg)
      → allowed_when_paused msg ≡ true
      → Ensures (SettingsOnly pool env) (dispatch host pool env info msg)
  unfolding allowed_when_paused dispatch
  settings_only (update_supported_collateral_msg to_update to_remove) h =
      update_supported_collateral-SettingsOnly host pool env info to_update to_remove
  settings_only (set_operational_state_msg state) h =
      set_operational_state-SettingsOnly host pool env info state
  settings_only (update_ownership_msg action) h =
      execute_update_ownership-SettingsOnly host pool env info action
  settings_only (set_lender_required_attrs_msg attrs) h =
      set_lender_required_attrs-SettingsOnly host pool env info attrs
  settings_only (set_borrower_required_attrs_msg attrs) h =
      set_borrower_required_attrs-SettingsOnly host pool env info attrs
  settings_only (update_contract_config_msg params) h =
      update_contract_config-SettingsOnly host pool env info params
  settings_only (update_rate_params_msg rate_params) h =
      update_rate_params-SettingsOnly host pool env info rate_params
  settings_only (set_borrower_require_commit_msg address require) h =
      execute_set_borrower_require_commit-SettingsOnly host pool env info address require
  settings_only (set_lender_require_commit_on_exit_msg address require) h =
      execute_set_lender_require_commit_on_exit-SettingsOnly host pool env info address require
  settings_only lend_msg h = cc
  settings_only repay_msg h = cc
  settings_only add_collateral_msg h = cc
  settings_only (receive_msg _ _ _) h = cc
  settings_only (borrow_msg _) h = cc
  settings_only (remove_collateral_msg _) h = cc
  settings_only (adjust_directed_collateral_sale_msg _ _ _) h = cc
  settings_only (liquidate_msg _ _) h = cc
  settings_only (withdraw_reserve_msg _) h = cc
  settings_only (eliminate_deficit_msg _) h = cc
  settings_only (socialize_deficit_msg _) h = cc
  settings_only (withdraw_msg _ _ _) h = cc

  execute_paused-Ensures :
      (msg : ExecuteMsg)
      → pool.contract.operational_state ≡ paused
      → Ensures
          (λ out. (allowed_when_paused msg ≡ true) × SettingsOnly pool env out)
          (execute host pool env info msg)
  unfolding execute
  execute_paused-Ensures msg stopped =
      let state = pool.contract.operational_state in
      Ensures-ensure (allowed_when_paused msg || not (is_paused state)) illegal_state _ λ accepted.
        let settings : allowed_when_paused msg ≡ true = ground arith in
        Ensures-ensure (not (is_frozen state) || not (disabled_when_frozen msg)) _ _
          λ _. record { at = λ out h. (settings, (settings_only msg settings).at out h) }

  -- A message that goes through while the pool is paused is one of the settings: it sends nothing, changes
  -- no debt and no collateral, and the reserve at most accrues.
  pub execute_paused :
      (msg : ExecuteMsg) {out : Pool × Response}
      → pool.contract.operational_state ≡ paused
      → execute host pool env info msg ≡ ok out
      → (allowed_when_paused msg ≡ true) × SettingsOnly pool env out
  execute_paused msg {out} stopped h = (execute_paused-Ensures msg stopped).at out h
