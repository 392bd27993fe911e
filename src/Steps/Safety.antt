-- ===== src/Steps/Safety.antt =====
-- What every history of the pool keeps.
use democratized_prime_smart.Borrowing.Effects.{borrow-IsValid}
use democratized_prime_smart.Borrowing.Repayment.{repay-IsValid}
use democratized_prime_smart.Collateral.Effects.{
  add_collateral-CollateralMoved, remove_collateral-CollateralRemoved,
}
use democratized_prime_smart.Configuration.Effects.{SettingsOnly-IsValid}
use democratized_prime_smart.Cosmwasm.{Cosmwasm, IsCosmwasm}
use democratized_prime_smart.DirectedSale.{adjust_directed_collateral_sale, ℤ}
use democratized_prime_smart.DirectedSale.Replay.{adjust-Adjusted}
use democratized_prime_smart.Dispatch.{
  ExecuteMsg, add_collateral_msg, adjust_directed_collateral_sale_msg, allowed_when_paused,
  borrow_msg, dispatch, eliminate_deficit_msg, execute, lend_msg, liquidate_msg, receive_msg,
  remove_collateral_msg, repay_msg, set_borrower_require_commit_msg,
  set_borrower_required_attrs_msg, set_lender_require_commit_on_exit_msg,
  set_lender_required_attrs_msg, set_operational_state_msg, socialize_deficit_msg,
  update_contract_config_msg, update_ownership_msg, update_rate_params_msg,
  update_supported_collateral_msg, withdraw_msg, withdraw_reserve_msg,
}
use democratized_prime_smart.Dispatch.Paused.{settings_only}
use democratized_prime_smart.Host.{Env, Host, MessageInfo}
use democratized_prime_smart.Lending.{ReceivePayload, receive}
use democratized_prime_smart.Lending.Burning.{Withdrawn-IsValid}
use democratized_prime_smart.Lending.Effects.{lend-IsValid}
use democratized_prime_smart.Lending.Withdrawals.{withdraw-IsValid}
use democratized_prime_smart.Liquidation.Taken.{liquidate-IsValid}
use democratized_prime_smart.Map.{Map}
use democratized_prime_smart.Pool.{Pool}
use democratized_prime_smart.Pool.Invariant.{IsValid, elsewhere-IsValid}
use democratized_prime_smart.Prelude.{
  Bool-cases, Ensures, Option, ap, false, inl, inr, ok, true, ℕ, ◌≡◌,
}
use democratized_prime_smart.Responses.{Response}
use democratized_prime_smart.Steps.{Reaches, executes, here, then_step}
use democratized_prime_smart.Steps.Handled.{execute-dispatch, receive-Handled}
use democratized_prime_smart.Treasury.Deficit.{eliminate_deficit-IsValid}
use democratized_prime_smart.Treasury.Effects.{withdraw_reserve-IsValid}
use democratized_prime_smart.Treasury.Socialization.{socialize_deficit-IsValid}

module _ ⦃c : Cosmwasm⦄ (laws : IsCosmwasm c) (host : Host) where
  receive-IsValid :
      (pool : Pool) (env : Env) (info : MessageInfo) (cw20_sender amount : ℕ)
      (msg : Option ReceivePayload) {out : Pool × Response}
      → IsValid pool
      → receive host pool env info cw20_sender amount msg ≡ ok out
      → IsValid out.0
  receive-IsValid pool env info cw20_sender amount msg v h =
      let (_, handled) = receive-Handled laws host pool env info cw20_sender amount msg h in
      elim handled [ inl same ↦ rw same v | inr withdrawn ↦ Withdrawn-IsValid laws v withdrawn ]

  adjust-IsValid :
      (pool : Pool) (env : Env) (info : MessageInfo) (adjustments : Map ℤ) (expires_at version : ℕ)
      {out : Pool × Response}
      → IsValid pool
      → adjust_directed_collateral_sale pool env info adjustments expires_at version ≡ ok out
      → IsValid out.0
  adjust-IsValid pool env info adjustments expires_at version {out} v h =
      let e = (adjust-Adjusted pool env info adjustments expires_at version h).0 in
      elsewhere-IsValid pool out.0 v (ap (λ (x : Pool). x.reserve) e.rest)
        (ap (λ (x : Pool). x.scaled_borrow) e.rest)
        (ap (λ (x : Pool). x.borrower_collateral) e.rest)
        (ap (λ (x : Pool). x.total_collateral_by_asset) e.rest)

  settings-IsValid :
      (pool : Pool) (env : Env) (info : MessageInfo) (msg : ExecuteMsg) {out : Pool × Response}
      → IsValid pool
      → allowed_when_paused msg ≡ true
      → dispatch host pool env info msg ≡ ok out
      → IsValid out.0
  settings-IsValid pool env info msg {out} v accepted h =
      SettingsOnly-IsValid laws pool env v
        ((settings_only host pool env info msg accepted).at out h)

  business-IsValid :
      (pool : Pool) (env : Env) (info : MessageInfo) (msg : ExecuteMsg) {out : Pool × Response}
      → IsValid pool
      → allowed_when_paused msg ≡ false
      → dispatch host pool env info msg ≡ ok out
      → IsValid out.0
  unfolding dispatch allowed_when_paused
  business-IsValid pool env info lend_msg v _ h = lend-IsValid laws host pool env info v h
  business-IsValid pool env info repay_msg v _ h = repay-IsValid laws pool env info v h
  business-IsValid pool env info add_collateral_msg v _ h =
      (add_collateral-CollateralMoved laws host pool env info v h).1
  business-IsValid pool env info (receive_msg sender amount msg) v _ h =
      receive-IsValid pool env info sender amount msg v h
  business-IsValid pool env info (borrow_msg amount) v _ h =
      borrow-IsValid host laws pool env info amount v h
  business-IsValid pool env info (remove_collateral_msg to_remove) v _ h =
      (remove_collateral-CollateralRemoved laws host pool env info to_remove v h).valid
  business-IsValid pool env info (adjust_directed_collateral_sale_msg adjustments at version) v _
        h =
      adjust-IsValid pool env info adjustments at version v h
  business-IsValid pool env info (liquidate_msg borrower seize) v _ h =
      liquidate-IsValid laws host pool env info borrower seize v h
  business-IsValid pool env info (withdraw_reserve_msg recipient) v _ h =
      withdraw_reserve-IsValid host laws pool env info recipient v h
  business-IsValid pool env info (eliminate_deficit_msg funding) v _ h =
      eliminate_deficit-IsValid laws host pool env info funding v h
  business-IsValid pool env info (socialize_deficit_msg max_amount) v _ h =
      socialize_deficit-IsValid laws host pool env info max_amount v h
  business-IsValid pool env info (withdraw_msg lender amount commit_funds) v _ h =
      withdraw-IsValid laws host pool env info lender amount commit_funds v h
  business-IsValid pool env info (update_supported_collateral_msg _ _) v b h = cc
  business-IsValid pool env info (set_operational_state_msg _) v b h = cc
  business-IsValid pool env info (update_ownership_msg _) v b h = cc
  business-IsValid pool env info (set_lender_required_attrs_msg _) v b h = cc
  business-IsValid pool env info (set_borrower_required_attrs_msg _) v b h = cc
  business-IsValid pool env info (update_contract_config_msg _) v b h = cc
  business-IsValid pool env info (update_rate_params_msg _) v b h = cc
  business-IsValid pool env info (set_borrower_require_commit_msg _ _) v b h = cc
  business-IsValid pool env info (set_lender_require_commit_on_exit_msg _ _) v b h = cc

  dispatch-IsValid :
      (pool : Pool) (env : Env) (info : MessageInfo) (msg : ExecuteMsg)
      → IsValid pool
      → Ensures (λ out. IsValid out.0) (dispatch host pool env info msg)
  dispatch-IsValid pool env info msg v = elim (Bool-cases (allowed_when_paused msg)) [
    | inl accepted ↦ record { at = λ out h. settings-IsValid pool env info msg v accepted h }
    | inr business ↦ record { at = λ out h. business-IsValid pool env info msg v business h }
  ]

  execute-IsValid :
      (pool : Pool) (env : Env) (info : MessageInfo) (msg : ExecuteMsg) {out : Pool × Response}
      → IsValid pool
      → execute host pool env info msg ≡ ok out
      → IsValid out.0
  execute-IsValid pool env info msg {out} v h =
      (dispatch-IsValid pool env info msg v).at out (execute-dispatch host pool env info msg h)

  -- Whatever calls go through, in whatever order, a valid pool stays valid: the scaled debts, one for a
  -- borrower, sum to the reserve's total, the holdings, one for a borrower and an asset, to the total of
  -- the asset, each of these maps stands by rising key, and the amounts of the reserve fit a `u128`.
  pub Reaches-IsValid : {pool pool' : Pool} → IsValid pool → Reaches host pool pool' → IsValid pool'
  Reaches-IsValid v here = v
  Reaches-IsValid v (then_step past (executes {pool} env info msg h)) =
      execute-IsValid pool env info msg (Reaches-IsValid v past) h
