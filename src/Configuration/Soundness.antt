-- ===== src/Configuration/Soundness.antt =====
-- What an update of the configuration establishes:
-- contracts/pool_v2/src/execute/update_contract_config.rs.
use democratized_prime_smart.Access.{assert_custodian, assert_custodian_iff}
use democratized_prime_smart.Configuration.Update.{
  UpdateContractConfigParams, account_of, allocation_of, check_config, has_any, nonzero_or,
  oracle_of, raised, same_allocation, update_contract_config, updated,
}
use democratized_prime_smart.Contract.{
  BadDebtLossAllocation, ContractState, LiquidationAccess, ensure_permissionless_config,
  immediate_liquidity_index_haircut, is_immediate, liquidator_only,
  max_allowed_liquidation_staleness_seconds, max_permissionless_liquidation_staleness_seconds,
  permissionless,
}
use democratized_prime_smart.Cosmwasm.{Cosmwasm, IsCosmwasm, decimal_one}
use democratized_prime_smart.Cosmwasm.Laws.{mul_eq}
use democratized_prime_smart.Host.{Host, MessageInfo, no_funds}
use democratized_prime_smart.Pool.{Pool}
use democratized_prime_smart.Prelude.{
  Bool-cases, Ensures, Ensures->>=, Ensures-ensure, Ensures-ok, Ensures-or_err, Option, arith, inl,
  inr, leb, leb→le, ltb, ltb→lt, none, not, ok, refl, some, ℕ, ◌*◌, ◌<◌, ◌==◌, ◌||◌, ◌≡◌, ◌≢◌, ◌≤◌,
  ◌⊎◌,
}
use democratized_prime_smart.Responses.{Response}

-- The rates leave room for a liquidation, and anyone may liquidate only while no loss is deferred.
pub record IsSound (contract : ContractState) (deficit : ℕ) : Type 0 where
  pub margin_some : contract.margin_rate ≢ 0
  pub margin_below : contract.margin_rate < contract.liquidation_rate
  pub liquidation_at_most_one : contract.liquidation_rate ≤ decimal_one
  pub bonus_above_one : decimal_one < contract.liquidation_bonus_rate
  pub bonus_room :
      contract.liquidation_bonus_rate * contract.margin_rate < decimal_one * decimal_one
  pub staleness_bound :
      contract.max_liquidation_staleness_seconds ≤ max_allowed_liquidation_staleness_seconds
  pub access :
      (contract.liquidation_access ≡ liquidator_only)
      ⊎ ((contract.max_liquidation_staleness_seconds
            ≤ max_permissionless_liquidation_staleness_seconds)
          × (contract.bad_debt_loss_allocation ≡ immediate_liquidity_index_haircut)
          × (deficit ≡ 0))

pub permissionless_config :
    (access : LiquidationAccess) (staleness : ℕ) (allocation : BadDebtLossAllocation) (deficit : ℕ)
    → Ensures
        (λ _.
          (access ≡ liquidator_only)
          ⊎ ((staleness ≤ max_permissionless_liquidation_staleness_seconds)
              × (allocation ≡ immediate_liquidity_index_haircut)
              × (deficit ≡ 0)))
        (ensure_permissionless_config access staleness allocation deficit)
unfolding ensure_permissionless_config
permissionless_config liquidator_only staleness allocation deficit = Ensures-ok tt (inl refl)
permissionless_config permissionless staleness allocation deficit =
    Ensures-ensure (leb staleness max_permissionless_liquidation_staleness_seconds) _ _ λ short.
      Ensures-ensure (is_immediate allocation) _ _ λ immediate. record {
        at = λ u h. inr (
          leb→le staleness max_permissionless_liquidation_staleness_seconds short,
          ground arith,
          ground arith,
        );
      }

raised_le : (current : ℕ) (v : Option ℕ) → Ensures (λ r. current ≤ r) (raised current v)
unfolding raised
raised_le current none = Ensures-ok current (omega arith)
raised_le current (some v) =
    Ensures-ensure (leb current v) _ _ λ h. Ensures-ok v (leb→le current v h)

pub record Reconfigured (pool : Pool) (sender : ℕ) (pool' : Pool) : Type 0 where
  pub authorized : pool.contract.custodian ≡ some sender
  pub rest : pool' ≡ record pool { contract = pool'.contract }
  pub sound : IsSound pool'.contract pool.reserve.deficit_underlying
  pub raises : pool.contract.liquidation_rate ≤ pool'.contract.liquidation_rate
  pub allocation :
      (pool'.contract.bad_debt_loss_allocation ≡ pool.contract.bad_debt_loss_allocation)
      ⊎ (pool.reserve.deficit_underlying ≡ 0)

allocation_kept :
    (current : BadDebtLossAllocation) (deficit : ℕ) (v : Option BadDebtLossAllocation)
    → Ensures (λ a. (a ≡ current) ⊎ (deficit ≡ 0)) (allocation_of current deficit v)
unfolding allocation_of
allocation_kept current deficit none = Ensures-ok current (inl refl)
allocation_kept current deficit (some v) =
    Ensures-ensure (same_allocation v current || deficit == 0) _ _ λ h.
      Ensures-ok v (elim (Bool-cases (deficit == 0)) [
        | inl clear ↦ inr (ground arith)
        | inr owed ↦ inl (ground arith)
      ])

module _ ⦃c : Cosmwasm⦄ (laws : IsCosmwasm c) where
  pub check_config-IsSound :
      (contract : ContractState) (deficit : ℕ)
      → Ensures (λ _. IsSound contract deficit) (check_config contract deficit)
  unfolding check_config
  check_config-IsSound contract deficit =
      let bonus = contract.liquidation_bonus_rate in
      let margin = contract.margin_rate in
      let staleness = contract.max_liquidation_staleness_seconds in
      Ensures-ensure (not (margin == 0)) _ _ λ some_margin.
        Ensures-ensure (not (contract.liquidation_rate == 0)) _ _ λ _.
          Ensures-ensure (leb contract.liquidation_rate decimal_one) _ _ λ at_most.
            Ensures-ensure (ltb margin contract.liquidation_rate) _ _ λ below.
              Ensures-ensure (ltb decimal_one bonus) _ _ λ above.
                Ensures-or_err (c.checked_mul bonus margin) _ _ λ product em.
                  Ensures-ensure (ltb product decimal_one) _ _ λ room.
                    Ensures-ensure (leb staleness max_allowed_liquidation_staleness_seconds) _ _
                      λ short. record {
                        at = λ u h.
                            let product_eq = mul_eq laws bonus margin em in
                            let small = ltb→lt product decimal_one room in
                            record {
                              margin_some = ground arith;
                              margin_below = ltb→lt margin contract.liquidation_rate below;
                              liquidation_at_most_one =
                                  leb→le contract.liquidation_rate decimal_one at_most;
                              bonus_above_one = ltb→lt decimal_one bonus above;
                              bonus_room = omega arith;
                              staleness_bound =
                                  leb→le staleness max_allowed_liquidation_staleness_seconds short;
                              access =
                                  (permissionless_config contract.liquidation_access staleness
                                      contract.bad_debt_loss_allocation deficit).at
                                    u h;
                            };
                      }

  updated_eq :
      (host : Host) (contract : ContractState) (deficit : ℕ) (params : UpdateContractConfigParams)
      → Ensures
          (λ contract'.
            (contract.liquidation_rate ≤ contract'.liquidation_rate)
            × ((contract'.bad_debt_loss_allocation ≡ contract.bad_debt_loss_allocation)
                ⊎ (deficit ≡ 0)))
          (updated host contract deficit params)
  unfolding updated
  updated_eq host contract deficit params =
      Ensures->>= (raised contract.liquidation_rate params.liquidation_rate) _ λ rate er.
        Ensures->>= (oracle_of host contract.price_oracle_address params.price_oracle_address) _
          λ _ _. Ensures->>= (nonzero_or contract.min_lend params.min_lend) _ λ _ _.
            Ensures->>= (nonzero_or contract.min_borrow params.min_borrow) _ λ _ _.
              Ensures->>=
                (nonzero_or contract.max_borrower_collateral_types
                  params.max_borrower_collateral_types)
                _
                λ _ _.
                  Ensures->>=
                    (allocation_of contract.bad_debt_loss_allocation deficit
                      params.bad_debt_loss_allocation)
                    _
                    λ allocation ea.
                      Ensures->>= (account_of host contract.custodian params.custodian) _ λ _ _.
                        Ensures->>= (account_of host contract.liquidator params.liquidator) _ λ _ _.
                          Ensures-ok _ (
                            (raised_le contract.liquidation_rate params.liquidation_rate).at rate
                                er,
                            (allocation_kept contract.bad_debt_loss_allocation deficit
                                  params.bad_debt_loss_allocation).at
                                allocation ea,
                          )

  update_contract_config-Ensures :
      (host : Host) (pool : Pool) (info : MessageInfo) (params : UpdateContractConfigParams)
      → Ensures
          (λ out. Reconfigured pool info.sender out.0)
          (update_contract_config host pool info params)
  unfolding update_contract_config
  update_contract_config-Ensures host pool info params =
      let deficit = pool.reserve.deficit_underlying in
      Ensures->>= (assert_custodian pool.contract info.sender) _ λ _ ea.
        Ensures-ensure (no_funds info) _ _ λ _. Ensures-ensure (has_any params) _ _ λ _.
          Ensures->>= (updated host pool.contract deficit params) _ λ contract eu.
            Ensures->>= (check_config contract deficit) _ λ _ ec.
              let (raises, allocation) =
                (updated_eq host pool.contract deficit params).at contract eu in
              Ensures-ok _ (record {
                authorized = (assert_custodian_iff pool.contract info.sender).0 ea;
                rest = refl;
                sound = (check_config-IsSound contract deficit).at tt ec;
                raises = raises;
                allocation = allocation;
              })

  -- An update of the configuration that goes through comes from the custodian, changes the configuration
  -- alone, never lowers the liquidation rate, changes the allocation of losses only without a deficit, and
  -- leaves rates with 0 < margin < liquidation ≤ 1 < bonus and bonus · margin < 1, a bounded staleness, and
  -- open liquidation only with a short staleness, the immediate haircut and no deficit.
  pub update_contract_config-Reconfigured :
      (host : Host) (pool : Pool) (info : MessageInfo) (params : UpdateContractConfigParams)
      {out : Pool × Response}
      → update_contract_config host pool info params ≡ ok out
      → Reconfigured pool info.sender out.0
  update_contract_config-Reconfigured host pool info params {out} h =
      (update_contract_config-Ensures host pool info params).at out h
