-- ===== src/Configuration/Effects.antt =====
-- What the handlers of the configuration leave as it is: those of contracts/pool_v2/src/execute that
-- the pool's configuration, its rules and its ownership are set by.
use democratized_prime_smart.Access.{assert_custodian, assert_owner}
use democratized_prime_smart.Accrual.{compute_effective_reserve}
use democratized_prime_smart.Attributes.Patterns.{validate_required_attr_patterns}
use democratized_prime_smart.Configuration.{
  assert_owner_or_custodian, asset_ids, execute_set_borrower_require_commit,
  execute_set_lender_require_commit_on_exit, execute_update_ownership, is_renounce,
  max_lender_borrower_required_attrs, no_duplicates, none_in_use, require_market,
  set_borrower_required_attrs, set_lender_required_attrs, set_operational_state, supported_of,
  update_assets, update_rate_params, update_supported_collateral, without,
}
use democratized_prime_smart.Configuration.Update.{
  UpdateContractConfigParams, check_config, has_any, update_contract_config, updated,
}
use democratized_prime_smart.Contract.{CollateralAsset, ContractState, OperationalState}
use democratized_prime_smart.Cosmwasm.{Cosmwasm, IsCosmwasm}
use democratized_prime_smart.Host.{Env, Host, MessageInfo, OwnershipAction, no_funds}
use democratized_prime_smart.Pool.{Pool, set_reserve_state}
use democratized_prime_smart.Pool.Invariant.{
  Ensures-attach_rates, Ensures-update, IsValid, accrual-IsValid, elsewhere-IsValid,
}
use democratized_prime_smart.Prelude.{
  Bool, Ensures, Ensures->>=, Ensures-ensure, Ensures-ok, Ensures-or_err, List, Option, [], inl,
  inr, leb, length, not, ok, refl, ℕ, ◌++◌, ◌≡◌, ◌⊎◌,
}
use democratized_prime_smart.RateParams.{RateParams, validate}
use democratized_prime_smart.Responses.{Response, no_response}

-- What the soundness of a configuration is about stays.
pub record SameRisk (contract contract' : ContractState) : Type 0 where
  pub margin : contract'.margin_rate ≡ contract.margin_rate
  pub liquidation : contract'.liquidation_rate ≡ contract.liquidation_rate
  pub bonus : contract'.liquidation_bonus_rate ≡ contract.liquidation_bonus_rate
  pub staleness :
      contract'.max_liquidation_staleness_seconds ≡ contract.max_liquidation_staleness_seconds
  pub access : contract'.liquidation_access ≡ contract.liquidation_access
  pub allocation : contract'.bad_debt_loss_allocation ≡ contract.bad_debt_loss_allocation

pub SameRisk-refl : (contract : ContractState) → SameRisk contract contract
SameRisk-refl contract = record {
  margin = refl;
  liquidation = refl;
  bonus = refl;
  staleness = refl;
  access = refl;
  allocation = refl;
}

-- No funds move, no debt and no collateral changes; the reserve at most accrues.
pub record SettingsOnly ⦃c : Cosmwasm⦄ (pool : Pool) (env : Env) (out : Pool × Response)
    : Type 0 where
  pub sends : out.1.messages ≡ []
  pub debts : out.0.scaled_borrow ≡ pool.scaled_borrow
  pub holdings : out.0.borrower_collateral ≡ pool.borrower_collateral
  pub totals : out.0.total_collateral_by_asset ≡ pool.total_collateral_by_asset
  pub versions : out.0.directed_sale_version ≡ pool.directed_sale_version
  pub accrues :
      (out.0.reserve ≡ pool.reserve)
      ⊎ (compute_effective_reserve pool.reserve env.block_time pool.contract.rate_params
          ≡ ok out.0.reserve)
  pub risk :
      SameRisk pool.contract out.0.contract
      ⊎ ((out.0.reserve ≡ pool.reserve)
          × (check_config out.0.contract pool.reserve.deficit_underlying ≡ ok tt))

module _ ⦃c : Cosmwasm⦄ where
  -- a new configuration alone
  configured :
      (pool : Pool) (env : Env) (contract : ContractState)
      → (SameRisk pool.contract contract
          ⊎ ((pool.reserve ≡ pool.reserve)
              × (check_config contract pool.reserve.deficit_underlying ≡ ok tt)))
      → SettingsOnly pool env (record pool { contract = contract }, no_response)
  configured pool env contract risk = record {
    sends = refl;
    debts = refl;
    holdings = refl;
    totals = refl;
    versions = refl;
    accrues = inl refl;
    risk = risk;
  }

  pub SettingsOnly-IsValid :
      IsCosmwasm c
      → (pool : Pool) (env : Env) {out : Pool × Response} → IsValid pool
      → SettingsOnly pool env out
      → IsValid out.0
  SettingsOnly-IsValid laws pool env {out} v e = elim e.accrues [
    | inl same ↦ elsewhere-IsValid pool out.0 v same e.debts e.holdings e.totals
    | inr accrued ↦
        elsewhere-IsValid (set_reserve_state pool out.0.reserve) out.0
          (accrual-IsValid laws pool env.block_time pool.contract.rate_params v accrued) refl
          e.debts e.holdings e.totals
  ]

module _ ⦃c : Cosmwasm⦄ (host : Host) (pool : Pool) (env : Env) (info : MessageInfo) where
  pub update_supported_collateral-SettingsOnly :
      (to_update : List CollateralAsset) (to_remove : List ℕ)
      → Ensures
          (SettingsOnly pool env)
          (update_supported_collateral host pool info to_update to_remove)
  unfolding update_supported_collateral
  update_supported_collateral-SettingsOnly to_update to_remove =
      let contract = pool.contract in
      Ensures->>= (assert_custodian contract info.sender) _ λ _ _.
        Ensures-ensure (no_funds info) _ _ λ _.
          Ensures->>= (no_duplicates [] (asset_ids to_update ++ to_remove)) _ λ _ _.
            Ensures->>=
              (update_assets host contract.lending_denom.name contract.supported_collateral_assets
                to_update)
              _
              λ assets _. Ensures->>= (none_in_use pool (supported_of assets to_remove)) _ λ _ _.
                Ensures-ok _ (
                  configured pool env
                    (record pool.contract {
                      supported_collateral_assets = without (supported_of assets to_remove) assets;
                    })
                    (inl (record {
                      margin = refl;
                      liquidation = refl;
                      bonus = refl;
                      staleness = refl;
                      access = refl;
                      allocation = refl;
                    })))

  pub update_rate_params-SettingsOnly :
      (p : RateParams) → Ensures (SettingsOnly pool env) (update_rate_params pool env info p)
  unfolding update_rate_params
  update_rate_params-SettingsOnly p =
      Ensures->>= (assert_custodian pool.contract info.sender) _ λ _ _.
        Ensures-ensure (no_funds info) _ _ λ _. Ensures->>= (validate p) _ λ _ _.
          Ensures-update pool env pool.contract.rate_params _ λ r er.
            Ensures-attach_rates
              (record pool { contract = record pool.contract { rate_params = p }; reserve = r }) []
              r p
              λ rates. record {
                sends = refl;
                debts = refl;
                holdings = refl;
                totals = refl;
                versions = refl;
                accrues = inr er;
                risk =
                    (inl (record {
                      margin = refl;
                      liquidation = refl;
                      bonus = refl;
                      staleness = refl;
                      access = refl;
                      allocation = refl;
                    }));
              }

  pub set_operational_state-SettingsOnly :
      (state : OperationalState)
      → Ensures (SettingsOnly pool env) (set_operational_state host pool info state)
  unfolding set_operational_state
  set_operational_state-SettingsOnly state =
      Ensures->>= (assert_owner_or_custodian host pool info.sender) _ λ _ _.
        Ensures-ensure (no_funds info) _ _ λ _. Ensures-ok _ (
          configured pool env (record pool.contract { operational_state = state })
            (inl (record {
              margin = refl;
              liquidation = refl;
              bonus = refl;
              staleness = refl;
              access = refl;
              allocation = refl;
            })))

  pub set_lender_required_attrs-SettingsOnly :
      (attrs : List (List ℕ))
      → Ensures (SettingsOnly pool env) (set_lender_required_attrs pool info attrs)
  unfolding set_lender_required_attrs
  set_lender_required_attrs-SettingsOnly attrs =
      Ensures->>= (assert_custodian pool.contract info.sender) _ λ _ _.
        Ensures-ensure (no_funds info) _ _ λ _.
          Ensures-ensure (leb (length attrs) max_lender_borrower_required_attrs) _ _ λ _.
            Ensures->>= (validate_required_attr_patterns attrs) _ λ _ _. Ensures-ok _ (
              configured pool env (record pool.contract { lender_required_attrs = attrs })
                (inl (record {
                  margin = refl;
                  liquidation = refl;
                  bonus = refl;
                  staleness = refl;
                  access = refl;
                  allocation = refl;
                })))

  pub set_borrower_required_attrs-SettingsOnly :
      (attrs : List (List ℕ))
      → Ensures (SettingsOnly pool env) (set_borrower_required_attrs pool info attrs)
  unfolding set_borrower_required_attrs
  set_borrower_required_attrs-SettingsOnly attrs =
      Ensures->>= (assert_custodian pool.contract info.sender) _ λ _ _.
        Ensures-ensure (no_funds info) _ _ λ _.
          Ensures-ensure (leb (length attrs) max_lender_borrower_required_attrs) _ _ λ _.
            Ensures->>= (validate_required_attr_patterns attrs) _ λ _ _. Ensures-ok _ (
              configured pool env (record pool.contract { borrower_required_attrs = attrs })
                (inl (record {
                  margin = refl;
                  liquidation = refl;
                  bonus = refl;
                  staleness = refl;
                  access = refl;
                  allocation = refl;
                })))

  pub update_contract_config-SettingsOnly :
      (params : UpdateContractConfigParams)
      → Ensures (SettingsOnly pool env) (update_contract_config host pool info params)
  unfolding update_contract_config
  update_contract_config-SettingsOnly params =
      let deficit = pool.reserve.deficit_underlying in
      Ensures->>= (assert_custodian pool.contract info.sender) _ λ _ _.
        Ensures-ensure (no_funds info) _ _ λ _. Ensures-ensure (has_any params) _ _ λ _.
          Ensures->>= (updated host pool.contract deficit params) _ λ contract _.
            Ensures->>= (check_config contract deficit) _
              λ _ ec. Ensures-ok _ (configured pool env contract (inr (refl, ec)))

  pub execute_set_borrower_require_commit-SettingsOnly :
      (address : ℕ) (require : Option Bool)
      → Ensures
          (SettingsOnly pool env)
          (execute_set_borrower_require_commit host pool info address require)
  unfolding execute_set_borrower_require_commit
  execute_set_borrower_require_commit-SettingsOnly address require =
      Ensures->>= (assert_owner host pool info.sender) _ λ _ _.
        Ensures-ensure (no_funds info) _ _ λ _.
          Ensures-or_err (host.addr_validate (host.trim address)) _ _ λ borrower _.
            Ensures->>= (require_market pool.contract.commit_market_id require) _ λ _ _.
              Ensures-ok _ (record {
                sends = refl;
                debts = refl;
                holdings = refl;
                totals = refl;
                versions = refl;
                accrues = inl refl;
                risk = inl (SameRisk-refl pool.contract);
              })

  pub execute_set_lender_require_commit_on_exit-SettingsOnly :
      (address : ℕ) (require : Option Bool)
      → Ensures
          (SettingsOnly pool env)
          (execute_set_lender_require_commit_on_exit host pool info address require)
  unfolding execute_set_lender_require_commit_on_exit
  execute_set_lender_require_commit_on_exit-SettingsOnly address require =
      Ensures->>= (assert_owner host pool info.sender) _ λ _ _.
        Ensures-ensure (no_funds info) _ _ λ _.
          Ensures-or_err (host.addr_validate (host.trim address)) _ _ λ lender _.
            Ensures->>= (require_market pool.contract.commit_market_id require) _ λ _ _.
              Ensures-ok _ (record {
                sends = refl;
                debts = refl;
                holdings = refl;
                totals = refl;
                versions = refl;
                accrues = inl refl;
                risk = inl (SameRisk-refl pool.contract);
              })

  pub execute_update_ownership-SettingsOnly :
      (action : OwnershipAction)
      → Ensures (SettingsOnly pool env) (execute_update_ownership host pool env info action)
  unfolding execute_update_ownership
  execute_update_ownership-SettingsOnly action = Ensures-ensure (no_funds info) _ _ λ _.
      Ensures-ensure (not (is_renounce action)) _ _ λ _.
        Ensures-or_err (host.update_ownership pool.ownership env info.sender action) _ _ λ o _.
          Ensures-ok _ (record {
            sends = refl;
            debts = refl;
            holdings = refl;
            totals = refl;
            versions = refl;
            accrues = inl refl;
            risk = inl (SameRisk-refl pool.contract);
          })
