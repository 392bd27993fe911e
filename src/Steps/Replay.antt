-- ===== src/Steps/Replay.antt =====
-- The versions of directed sales over a history: the handlers of contracts/pool_v2/src/execute against
-- adjust_directed_collateral_sale.rs.
use democratized_prime_smart.Borrowing.Effects.{borrow-Borrowed}
use democratized_prime_smart.Borrowing.Repayment.{repay-Repaid}
use democratized_prime_smart.Collateral.Effects.{
  add_collateral-CollateralMoved, remove_collateral-CollateralRemoved,
}
use democratized_prime_smart.Cosmwasm.{Cosmwasm, IsCosmwasm}
use democratized_prime_smart.DirectedSale.{adjust_directed_collateral_sale, ℤ}
use democratized_prime_smart.DirectedSale.Replay.{Adjusted, adjust-Adjusted, version_used}
use democratized_prime_smart.Dispatch.{
  ExecuteMsg, add_collateral_msg, adjust_directed_collateral_sale_msg, allowed_when_paused,
  borrow_msg, dispatch, eliminate_deficit_msg, execute, lend_msg, liquidate_msg, receive_msg,
  remove_collateral_msg, repay_msg, set_borrower_require_commit_msg,
  set_borrower_required_attrs_msg, set_lender_require_commit_on_exit_msg,
  set_lender_required_attrs_msg, set_operational_state_msg, socialize_deficit_msg,
  update_contract_config_msg, update_ownership_msg, update_rate_params_msg,
  update_supported_collateral_msg, withdraw_msg, withdraw_reserve_msg,
}
use democratized_prime_smart.Dispatch.Paused.{settings_only}
use democratized_prime_smart.Host.{Env, Host, MessageInfo}
use democratized_prime_smart.Lending.{ReceivePayload, receive}
use democratized_prime_smart.Lending.Effects.{lend-Lent}
use democratized_prime_smart.Lending.Withdrawals.{withdraw-Withdrawn}
use democratized_prime_smart.Liquidation.Effects.{liquidate-Liquidated}
use democratized_prime_smart.Liquidation.Taken.{after_eq}
use democratized_prime_smart.Map.{Map}
use democratized_prime_smart.Map.Sums.{get-insert}
use democratized_prime_smart.Pool.{Pool, get_directed_sale_version}
use democratized_prime_smart.Pool.Invariant.{IsValid}
use democratized_prime_smart.Prelude.{
  Bool-cases, Option, ap, arith, false, inl, inr, ok, refl, ℕ, ◌∙◌, ◌≡◌, ◌≢◌, ◌≤◌,
}
use democratized_prime_smart.Responses.{Response}
use democratized_prime_smart.Steps.{Reaches, executes, here, then_step}
use democratized_prime_smart.Steps.Handled.{execute-dispatch, receive-Handled}
use democratized_prime_smart.Steps.Safety.{Reaches-IsValid}
use democratized_prime_smart.Treasury.Deficit.{eliminate_deficit-Eliminated}
use democratized_prime_smart.Treasury.Effects.{withdraw_reserve-ReserveWithdrawn}
use democratized_prime_smart.Treasury.Socialization.{socialize_deficit-Socialized}

-- No borrower's version falls.
abbrev pub Advances : Pool → Pool → Type 0
Advances pool pool' = (b : ℕ) → get_directed_sale_version pool b ≤ get_directed_sale_version pool' b

same-Advances :
    (pool pool' : Pool)
    → pool'.directed_sale_version ≡ pool.directed_sale_version
    → Advances pool pool'
same-Advances pool pool' same b = rw same (omega arith)

-- what is written without the versions
written-Advances :
    (pool pool' written : Pool)
    → pool' ≡ written
    → written.directed_sale_version ≡ pool.directed_sale_version
    → Advances pool pool'
written-Advances pool pool' written e same =
    same-Advances pool pool' (ap (λ (x : Pool). x.directed_sale_version) e ∙ same)

Adjusted-Advances :
    (pool pool' : Pool) (borrower version : ℕ)
    → Adjusted pool borrower version pool'
    → Advances pool pool'
Adjusted-Advances pool pool' borrower version e b =
    rw (e.versions)
      (ground (arith, e.next, get-insert borrower version b pool.directed_sale_version))

module _ ⦃c : Cosmwasm⦄ (laws : IsCosmwasm c) (host : Host) where
  receive-Advances :
      (pool : Pool) (env : Env) (info : MessageInfo) (cw20_sender amount : ℕ)
      (msg : Option ReceivePayload) {out : Pool × Response}
      → receive host pool env info cw20_sender amount msg ≡ ok out
      → Advances pool out.0
  receive-Advances pool env info cw20_sender amount msg {out} h =
      let (_, handled) = receive-Handled laws host pool env info cw20_sender amount msg h in
      elim handled [
        | inl same ↦ written-Advances pool out.0 _ same refl
        | inr withdrawn ↦ written-Advances pool out.0 _ withdrawn.writes refl
      ]

  business-Advances :
      (pool : Pool) (env : Env) (info : MessageInfo) (msg : ExecuteMsg) {out : Pool × Response}
      → IsValid pool
      → allowed_when_paused msg ≡ false
      → dispatch host pool env info msg ≡ ok out
      → Advances pool out.0
  unfolding dispatch allowed_when_paused
  business-Advances pool env info lend_msg {out} v _ h =
      written-Advances pool out.0 _ (lend-Lent laws host pool env info h).writes refl
  business-Advances pool env info repay_msg {out} v _ h =
      written-Advances pool out.0 _ (repay-Repaid laws pool env info h).writes refl
  business-Advances pool env info add_collateral_msg {out} v _ h =
      written-Advances pool out.0 _
        ((add_collateral-CollateralMoved laws host pool env info v h).0.rest) refl
  business-Advances pool env info (receive_msg sender amount msg) v _ h =
      receive-Advances pool env info sender amount msg h
  business-Advances pool env info (borrow_msg amount) {out} v _ h =
      written-Advances pool out.0 _ (borrow-Borrowed host pool env info amount h).writes refl
  business-Advances pool env info (remove_collateral_msg to_remove) {out} v _ h =
      written-Advances pool out.0 _
        ((remove_collateral-CollateralRemoved laws host pool env info to_remove v h).moved.rest)
        refl
  business-Advances pool env info (adjust_directed_collateral_sale_msg adjustments at version) {out}
        v _ h =
      Adjusted-Advances pool out.0 info.sender version
        ((adjust-Adjusted pool env info adjustments at version h).0)
  business-Advances pool env info (liquidate_msg borrower seize) {out} v _ h =
      let e = liquidate-Liquidated laws host pool env info borrower seize v h in
      written-Advances pool out.0 _ (after_eq laws host pool env info borrower seize {out = out} e)
        (ap (λ (x : Pool). x.directed_sale_version) e.moved.rest)
  business-Advances pool env info (withdraw_reserve_msg recipient) {out} v _ h =
      written-Advances pool out.0 _
        (withdraw_reserve-ReserveWithdrawn host pool env info recipient h).writes refl
  business-Advances pool env info (eliminate_deficit_msg funding) {out} v _ h =
      written-Advances pool out.0 _
        (eliminate_deficit-Eliminated host pool env info funding h).writes refl
  business-Advances pool env info (socialize_deficit_msg max_amount) {out} v _ h =
      written-Advances pool out.0 _
        (socialize_deficit-Socialized laws host pool env info max_amount v h).writes refl
  business-Advances pool env info (withdraw_msg lender amount commit_funds) {out} v _ h =
      written-Advances pool out.0 _
        (withdraw-Withdrawn laws host pool env info lender amount commit_funds h).withdrawn.writes
        refl
  business-Advances pool env info (update_supported_collateral_msg _ _) v b h = cc
  business-Advances pool env info (set_operational_state_msg _) v b h = cc
  business-Advances pool env info (update_ownership_msg _) v b h = cc
  business-Advances pool env info (set_lender_required_attrs_msg _) v b h = cc
  business-Advances pool env info (set_borrower_required_attrs_msg _) v b h = cc
  business-Advances pool env info (update_contract_config_msg _) v b h = cc
  business-Advances pool env info (update_rate_params_msg _) v b h = cc
  business-Advances pool env info (set_borrower_require_commit_msg _ _) v b h = cc
  business-Advances pool env info (set_lender_require_commit_on_exit_msg _ _) v b h = cc

  execute-Advances :
      (pool : Pool) (env : Env) (info : MessageInfo) (msg : ExecuteMsg) {out : Pool × Response}
      → IsValid pool
      → execute host pool env info msg ≡ ok out
      → Advances pool out.0
  execute-Advances pool env info msg {out} v h =
      let handled = execute-dispatch host pool env info msg h in
      elim (Bool-cases (allowed_when_paused msg)) [
        | inl setting ↦
            same-Advances pool out.0
              ((settings_only host pool env info msg setting).at out handled).versions
        | inr business ↦ business-Advances pool env info msg v business handled
      ]

  Reaches-Advances :
      {pool pool' : Pool} → IsValid pool → Reaches host pool pool' → Advances pool pool'
  Reaches-Advances v here b = omega arith
  Reaches-Advances {pool} v (then_step past (executes {pool = mid} env info msg h)) b = omega (
    arith,
    Reaches-Advances v past b,
    execute-Advances mid env info msg (Reaches-IsValid laws host v past) h b,
  )

  adjusts :
      (pool : Pool) (env : Env) (info : MessageInfo) (adjustments : Map ℤ) (expires_at version : ℕ)
      {out : Pool × Response}
      → execute host pool env info
          (adjust_directed_collateral_sale_msg adjustments expires_at version)
        ≡ ok out
      → adjust_directed_collateral_sale pool env info adjustments expires_at version ≡ ok out
  unfolding dispatch
  adjusts pool env info adjustments expires_at version h =
      execute-dispatch host pool env info
        (adjust_directed_collateral_sale_msg adjustments expires_at version) h

  -- An adjustment that goes through on a valid pool cannot go through again: after it, whatever messages of
  -- whatever senders go through, every adjustment of the same sender with the same version fails.
  pub adjust_replay_refused :
      (pool pool' : Pool) (env env' : Env) (info info' : MessageInfo)
      (adjustments adjustments' : Map ℤ) (expires_at expires_at' version : ℕ)
      {out out' : Pool × Response}
      → IsValid pool
      → execute host pool env info
          (adjust_directed_collateral_sale_msg adjustments expires_at version)
        ≡ ok out
      → Reaches host out.0 pool'
      → info'.sender ≡ info.sender
      → execute host pool' env' info'
          (adjust_directed_collateral_sale_msg adjustments' expires_at' version)
        ≢ ok out'
  adjust_replay_refused pool pool' env env' info info' adjustments adjustments' expires_at
        expires_at' version {out} {out'} v h later same again =
      let msg = adjust_directed_collateral_sale_msg adjustments expires_at version in
      let valid =
        Reaches-IsValid laws host v (then_step here (executes {pool = pool} env info msg h)) in
      version_used pool pool' env env' info info' adjustments adjustments' expires_at expires_at'
        version {out = out} {out' = out'} (adjusts pool env info adjustments expires_at version h)
        (Reaches-Advances valid later info.sender) same
        (adjusts pool' env' info' adjustments' expires_at' version again)
