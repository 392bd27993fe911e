-- ===== src/Instantiation/Start.antt =====
-- What a pool starts with: contracts/pool_v2/src/instantiate.
use democratized_prime_smart.Attributes.Patterns.{validate_required_attr_patterns}
use democratized_prime_smart.Configuration.{max_lender_borrower_required_attrs}
use democratized_prime_smart.Configuration.Soundness.{IsSound, permissionless_config}
use democratized_prime_smart.Contract.{
  ContractState, active, max_allowed_liquidation_staleness_seconds,
}
use democratized_prime_smart.Cosmwasm.{Cosmwasm, IsCosmwasm, decimal_one}
use democratized_prime_smart.Cosmwasm.Laws.{mul_eq}
use democratized_prime_smart.Host.{Env, Host, MessageInfo}
use democratized_prime_smart.Instantiation.{
  InstantiateMsg, RepoInstantiate, check_assets, check_rates, initial_contract, initial_pool,
  instantiate_contract, repo_token_of, validate_denom,
}
use democratized_prime_smart.Pool.{Pool}
use democratized_prime_smart.Pool.Invariant.{IsValid}
use democratized_prime_smart.Prelude.{
  Ensures, Ensures->>=, Ensures-ensure, Ensures-ok, Ensures-or_err, Option, [], arith, leb, leb→le,
  length, ltb, ltb→lt, not, ok, refl, some, ℕ, ◌==◌, ◌≡◌,
}
use democratized_prime_smart.RateParams.{validate}

-- A fresh pool is valid, soundly configured and open.
pub record Started ⦃c : Cosmwasm⦄ (sender : ℕ) (pool : Pool) : Type 0 where
  pub valid : IsValid pool
  pub sound : IsSound pool.contract pool.reserve.deficit_underlying
  pub rates : validate pool.contract.rate_params ≡ ok tt
  pub owned : pool.ownership.owner ≡ some sender
  pub open_state : pool.contract.operational_state ≡ active
  pub empty : (pool.reserve.total_scaled_liquidity ≡ 0) × (pool.reserve.total_scaled_borrow ≡ 0)

initial_pool-IsValid :
    (contract : ContractState) (now sender : ℕ) → IsValid (initial_pool contract now sender)
initial_pool-IsValid contract now sender = record {
  borrow_total = refl;
  liquidity_bound = omega arith;
  borrow_bound = omega arith;
  accrued_bound = omega arith;
  deficit_bound = omega arith;
  collateral_total = λ asset. refl;
  debts_sorted = tt;
  totals_sorted = tt;
  borrowers_sorted = tt;
  holdings_sorted = tt;
}

module _ ⦃c : Cosmwasm⦄ (laws : IsCosmwasm c) where
  -- The checks of a message make the configuration of the fresh pool sound.
  check_rates-IsSound :
      (msg : InstantiateMsg) (repo_token : Option ℕ) (oracle custodian liquidator : ℕ)
      → Ensures
          (λ _. IsSound (initial_contract msg repo_token oracle custodian liquidator) 0)
          (check_rates msg)
  unfolding check_rates
  check_rates-IsSound msg repo_token oracle custodian liquidator =
      let bonus = msg.liquidation_bonus_rate in
      let margin = msg.margin_rate in
      let staleness = msg.max_liquidation_staleness_seconds in
      Ensures-ensure (not (msg.min_lend == 0)) _ _ λ _.
        Ensures-ensure (not (msg.min_borrow == 0)) _ _ λ _.
          Ensures-ensure (not (margin == 0)) _ _ λ some_margin.
            Ensures-ensure (not (msg.liquidation_rate == 0)) _ _ λ _.
              Ensures-ensure (leb msg.liquidation_rate decimal_one) _ _ λ at_most.
                Ensures-ensure (ltb margin msg.liquidation_rate) _ _ λ below.
                  Ensures-ensure (ltb decimal_one bonus) _ _ λ above.
                    Ensures-or_err (c.checked_mul bonus margin) _ _ λ product em.
                      Ensures-ensure (ltb product decimal_one) _ _ λ room.
                        Ensures-ensure (ltb 0 msg.max_borrower_collateral_types) _ _ λ _.
                          Ensures-ensure (leb staleness max_allowed_liquidation_staleness_seconds) _
                            _
                            λ short. record {
                              at = λ u h.
                                  let product_eq = mul_eq laws bonus margin em in
                                  let small = ltb→lt product decimal_one room in
                                  record {
                                    margin_some = ground arith;
                                    margin_below = ltb→lt margin msg.liquidation_rate below;
                                    liquidation_at_most_one =
                                        leb→le msg.liquidation_rate decimal_one at_most;
                                    bonus_above_one = ltb→lt decimal_one bonus above;
                                    bonus_room = omega arith;
                                    staleness_bound =
                                        leb→le staleness max_allowed_liquidation_staleness_seconds
                                          short;
                                    access =
                                        (permissionless_config msg.liquidation_access staleness
                                            msg.bad_debt_loss_allocation 0).at
                                          u h;
                                  };
                            }

  instantiate-Ensures :
      (host : Host) (env : Env) (info : MessageInfo) (msg : InstantiateMsg)
      → Ensures (λ out. Started info.sender out.0) (instantiate_contract host env info msg)
  unfolding instantiate_contract
  instantiate-Ensures host env info msg =
      Ensures->>= (validate_denom host msg.lending_denom) _ λ _ _.
        Ensures->>= (validate msg.rate_params) _ λ _ ev.
          Ensures->>= (check_assets host msg.lending_denom.name [] msg.supported_collateral_assets)
            _
            λ _ _. Ensures->>= (repo_token_of host env info.sender msg.repo_token) _ λ token _.
              Ensures-ensure (not (host.is_blank msg.contract_name)) _ _ λ _.
                Ensures-ensure (not (host.is_blank msg.price_oracle_address)) _ _ λ _.
                  Ensures-or_err (host.addr_validate (host.trim msg.price_oracle_address)) _ _
                    λ oracle _. Ensures->>= (check_rates msg) _ λ _ er.
                      Ensures-ensure
                        (leb (length msg.lender_required_attrs) max_lender_borrower_required_attrs)
                        _ _
                        λ _.
                          Ensures-ensure
                            (leb (length msg.borrower_required_attrs)
                              max_lender_borrower_required_attrs)
                            _ _
                            λ _.
                              Ensures->>=
                                (validate_required_attr_patterns msg.lender_required_attrs) _
                                λ _ _.
                                  Ensures->>=
                                    (validate_required_attr_patterns msg.borrower_required_attrs) _
                                    λ _ _.
                                      Ensures-or_err (host.addr_validate (host.trim msg.custodian))
                                        _ _
                                        λ custodian _.
                                          Ensures-or_err
                                            (host.addr_validate (host.trim msg.liquidator)) _ _
                                            λ liquidator _. Ensures-ok _ (record {
                                              valid =
                                                  initial_pool-IsValid _ env.block_time info.sender;
                                              sound =
                                                  (check_rates-IsSound msg token.0 oracle custodian
                                                      liquidator).at
                                                    tt er;
                                              rates = ev;
                                              owned = refl;
                                              open_state = refl;
                                              empty = (refl, refl);
                                            })

  -- An instantiation that goes through leaves a pool that is valid, with a sound configuration and rate
  -- parameters that pass their checks, owned by the sender, active, and with nothing lent or borrowed.
  pub instantiate-Started :
      (host : Host) (env : Env) (info : MessageInfo) (msg : InstantiateMsg)
      {out : Pool × Option RepoInstantiate}
      → instantiate_contract host env info msg ≡ ok out
      → Started info.sender out.0
  instantiate-Started host env info msg {out} h = (instantiate-Ensures host env info msg).at out h
