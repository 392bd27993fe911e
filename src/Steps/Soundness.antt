-- ===== src/Steps/Soundness.antt =====
-- What every history keeps of the configuration: the handlers of contracts/pool_v2/src/execute leave the
-- rates sound, and no deficit stands while anyone may liquidate.
use democratized_prime_smart.Accrual.Growth.{accrual-Grows}
use democratized_prime_smart.Borrowing.Effects.{borrow-Borrowed}
use democratized_prime_smart.Borrowing.Repayment.{repay-Repaid}
use democratized_prime_smart.Collateral.Effects.{
  add_collateral-CollateralMoved, remove_collateral-CollateralRemoved,
}
use democratized_prime_smart.Configuration.Effects.{SettingsOnly}
use democratized_prime_smart.Configuration.Soundness.{IsSound, check_config-IsSound}
use democratized_prime_smart.Cosmwasm.{Cosmwasm, IsCosmwasm}
use democratized_prime_smart.DirectedSale.Replay.{adjust-Adjusted}
use democratized_prime_smart.Dispatch.{
  ExecuteMsg, add_collateral_msg, adjust_directed_collateral_sale_msg, allowed_when_paused,
  borrow_msg, dispatch, eliminate_deficit_msg, execute, lend_msg, liquidate_msg, receive_msg,
  remove_collateral_msg, repay_msg, set_borrower_require_commit_msg,
  set_borrower_required_attrs_msg, set_lender_require_commit_on_exit_msg,
  set_lender_required_attrs_msg, set_operational_state_msg, socialize_deficit_msg,
  update_contract_config_msg, update_ownership_msg, update_rate_params_msg,
  update_supported_collateral_msg, withdraw_msg, withdraw_reserve_msg,
}
use democratized_prime_smart.Dispatch.Paused.{settings_only}
use democratized_prime_smart.Host.{Env, Host, MessageInfo}
use democratized_prime_smart.Lending.Effects.{lend-Lent}
use democratized_prime_smart.Lending.Withdrawals.{withdraw-Withdrawn}
use democratized_prime_smart.Pool.{Pool}
use democratized_prime_smart.Pool.Invariant.{IsValid}
use democratized_prime_smart.Prelude.{Bool-cases, ap, arith, false, inl, inr, ok, refl, ◌≡◌}
use democratized_prime_smart.Reserve.{ReserveState}
use democratized_prime_smart.Responses.{Response}
use democratized_prime_smart.Steps.{Reaches, executes, here, then_step}
use democratized_prime_smart.Steps.Handled.{execute-dispatch}
use democratized_prime_smart.Steps.Kept.{
  Kept-IsSound, Sound, Withdrawn-Kept, accrued-Kept, liquidate-IsSound, receive-Kept, risk-IsSound,
  written-Kept,
}
use democratized_prime_smart.Steps.Safety.{Reaches-IsValid}
use democratized_prime_smart.Treasury.Deficit.{eliminate_deficit-Eliminated}
use democratized_prime_smart.Treasury.Effects.{withdraw_reserve-ReserveWithdrawn}
use democratized_prime_smart.Treasury.Socialization.{socialize_deficit-Socialized}

module _ ⦃c : Cosmwasm⦄ (laws : IsCosmwasm c) where
  module _ (host : Host) where
    settings-IsSound :
        (pool : Pool) (env : Env) {out : Pool × Response}
        → IsValid pool
        → Sound pool
        → SettingsOnly pool env out
        → Sound out.0
    settings-IsSound pool env {out} v s e =
        let deficit : out.0.reserve.deficit_underlying ≡ pool.reserve.deficit_underlying =
          elim e.accrues [
            | inl same ↦ ap (λ (x : ReserveState). x.deficit_underlying) same
            | inr accrued ↦
                (accrual-Grows laws pool.reserve env.block_time pool.contract.rate_params
                  v.accrued_bound accrued).same_deficit
          ] in
        elim e.risk [
          | inl same ↦
              risk-IsSound pool.contract out.0.contract pool.reserve.deficit_underlying
                out.0.reserve.deficit_underlying s same (inl (omega (arith, deficit)))
          | inr (_, checked) ↦ rw deficit (
              (check_config-IsSound laws out.0.contract pool.reserve.deficit_underlying).at tt
                checked)
        ]

    business-IsSound :
        (pool : Pool) (env : Env) (info : MessageInfo) (msg : ExecuteMsg) {out : Pool × Response}
        → IsValid pool
        → Sound pool
        → allowed_when_paused msg ≡ false
        → dispatch host pool env info msg ≡ ok out
        → Sound out.0
    unfolding dispatch allowed_when_paused
    business-IsSound pool env info lend_msg {out} v s _ h =
        let e = lend-Lent laws host pool env info h in
        Kept-IsSound pool out.0 s
          (written-Kept laws pool out.0 env e.accrued _ v e.accrues e.writes refl (omega arith))
    business-IsSound pool env info repay_msg {out} v s _ h =
        let e = repay-Repaid laws pool env info h in
        Kept-IsSound pool out.0 s
          (written-Kept laws pool out.0 env e.accrued _ v e.accrues e.writes refl (omega arith))
    business-IsSound pool env info add_collateral_msg {out} v s _ h =
        let e = (add_collateral-CollateralMoved laws host pool env info v h).0 in
        Kept-IsSound pool out.0 s (rw (e.rest) (record { same = refl; deficit_le = omega arith }))
    business-IsSound pool env info (receive_msg sender amount msg) {out} v s _ h =
        Kept-IsSound pool out.0 s (receive-Kept laws host pool env info sender amount msg v h)
    business-IsSound pool env info (borrow_msg amount) {out} v s _ h =
        let e = borrow-Borrowed host pool env info amount h in
        Kept-IsSound pool out.0 s
          (written-Kept laws pool out.0 env e.accrued _ v e.accrues e.writes refl (omega arith))
    business-IsSound pool env info (remove_collateral_msg to_remove) {out} v s _ h =
        let e = remove_collateral-CollateralRemoved laws host pool env info to_remove v h in
        let rest = e.moved.rest in
        Kept-IsSound pool out.0 s (
          accrued-Kept laws pool out.0 env e.accrued v e.accrues
            (ap (λ (x : Pool). x.contract) rest)
            (omega (arith, ap (λ (x : Pool). x.reserve.deficit_underlying) rest)))
    business-IsSound pool env info (adjust_directed_collateral_sale_msg adjustments at version)
          {out} v s _ h =
        let rest = (adjust-Adjusted pool env info adjustments at version h).0.rest in
        Kept-IsSound pool out.0 s (record {
          same = ap (λ (x : Pool). x.contract) rest;
          deficit_le = omega (arith, ap (λ (x : Pool). x.reserve.deficit_underlying) rest);
        })
    business-IsSound pool env info (liquidate_msg borrower seize) v s _ h =
        liquidate-IsSound laws host pool env info borrower seize v s h
    business-IsSound pool env info (withdraw_reserve_msg recipient) {out} v s _ h =
        let e = withdraw_reserve-ReserveWithdrawn host pool env info recipient h in
        Kept-IsSound pool out.0 s
          (written-Kept laws pool out.0 env e.accrued _ v e.accrues e.writes refl (omega arith))
    business-IsSound pool env info (eliminate_deficit_msg funding) {out} v s _ h =
        let e = eliminate_deficit-Eliminated host pool env info funding h in
        Kept-IsSound pool out.0 s (
          written-Kept laws pool out.0 env e.accrued _ v e.accrues e.writes refl
            (omega (arith, e.deficit_falls)))
    business-IsSound pool env info (socialize_deficit_msg max_amount) {out} v s _ h =
        let e = socialize_deficit-Socialized laws host pool env info max_amount v h in
        Kept-IsSound pool out.0 s (
          written-Kept laws pool out.0 env e.accrued _ v e.accrues e.writes refl
            (omega (arith, e.deficit_falls)))
    business-IsSound pool env info (withdraw_msg lender amount commit_funds) {out} v s _ h =
        let e = withdraw-Withdrawn laws host pool env info lender amount commit_funds h in
        Kept-IsSound pool out.0 s (Withdrawn-Kept laws host v e.withdrawn)
    business-IsSound pool env info (update_supported_collateral_msg _ _) v s b h = cc
    business-IsSound pool env info (set_operational_state_msg _) v s b h = cc
    business-IsSound pool env info (update_ownership_msg _) v s b h = cc
    business-IsSound pool env info (set_lender_required_attrs_msg _) v s b h = cc
    business-IsSound pool env info (set_borrower_required_attrs_msg _) v s b h = cc
    business-IsSound pool env info (update_contract_config_msg _) v s b h = cc
    business-IsSound pool env info (update_rate_params_msg _) v s b h = cc
    business-IsSound pool env info (set_borrower_require_commit_msg _ _) v s b h = cc
    business-IsSound pool env info (set_lender_require_commit_on_exit_msg _ _) v s b h = cc

    execute-IsSound :
        (pool : Pool) (env : Env) (info : MessageInfo) (msg : ExecuteMsg) {out : Pool × Response}
        → IsValid pool
        → Sound pool
        → execute host pool env info msg ≡ ok out
        → Sound out.0
    execute-IsSound pool env info msg {out} v s h =
        let handled = execute-dispatch host pool env info msg h in
        elim (Bool-cases (allowed_when_paused msg)) [
          | inl setting ↦
              settings-IsSound pool env v s
                ((settings_only host pool env info msg setting).at out handled)
          | inr business ↦ business-IsSound pool env info msg v s business handled
        ]

    -- From a valid pool with a sound configuration, whatever messages go through leave a valid pool and a
    -- sound configuration: 0 < margin < liquidation ≤ 1 < bonus and bonus · margin < 1, and while anyone may
    -- liquidate, losses are taken at once and there is no deficit.
    pub Reaches-IsSound :
        {pool pool' : Pool}
        → IsValid pool
        → IsSound pool.contract pool.reserve.deficit_underlying
        → Reaches host pool pool'
        → IsSound pool'.contract pool'.reserve.deficit_underlying
    Reaches-IsSound v s here = s
    Reaches-IsSound v s (then_step past (executes {pool} env info msg h)) =
        execute-IsSound pool env info msg (Reaches-IsValid laws host v past)
          (Reaches-IsSound v s past) h
