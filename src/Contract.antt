-- ===== src/Contract.antt =====
-- The configuration of the pool: contracts/pool_v2/src/model/contract_state.rs, denom.rs and
-- collateral.rs. Denoms, asset ids and addresses are only compared, so they are naturals in the order
-- of their spelling; a required attribute is the list of its characters.
use democratized_prime_smart.Prelude.{
  Bool, List, Option, Result, ensure, false, if◌then◌else◌, illegal_argument, illegal_state, leb,
  ok, or_err, true, ℕ, ◌*◌, ◌==◌, ◌>>◌,
}
use democratized_prime_smart.RateParams.{RateParams}

pub data BadDebtLossAllocation : Type 0 where
  deferred_to_deficit immediate_liquidity_index_haircut : BadDebtLossAllocation

pub data LiquidationAccess : Type 0 where
  liquidator_only permissionless : LiquidationAccess

pub data OperationalState : Type 0 where
  active frozen paused : OperationalState

pub record Denom : Type 0 where
  pub name : ℕ
  pub precision : ℕ

pub record CollateralAsset : Type 0 where
  pub asset_id : ℕ
  pub haircut : Option ℕ

pub record ContractState : Type 0 where
  pub repo_token_cw20_address : Option ℕ
  pub lending_denom : Denom
  pub rate_params : RateParams
  pub lender_required_attrs : List (List ℕ)
  pub borrower_required_attrs : List (List ℕ)
  pub price_oracle_address : ℕ
  pub max_borrower_collateral_types : ℕ
  pub margin_rate : ℕ
  pub liquidation_rate : ℕ
  pub liquidation_bonus_rate : ℕ
  pub min_lend : ℕ
  pub min_borrow : ℕ
  pub supported_collateral_assets : List CollateralAsset
  pub operational_state : OperationalState
  pub commit_market_id : Option ℕ
  pub bad_debt_loss_allocation : BadDebtLossAllocation
  pub custodian : Option ℕ
  pub liquidator : Option ℕ
  pub max_liquidation_staleness_seconds : ℕ
  pub liquidation_access : LiquidationAccess

unfoldable pub repo_token_addr : ContractState → Result ℕ
repo_token_addr contract = or_err contract.repo_token_cw20_address illegal_state

-- `DEFAULT_MAX_LIQUIDATION_STALENESS_SECONDS`
abbrev pub default_max_liquidation_staleness_seconds : ℕ
default_max_liquidation_staleness_seconds = 60 * 60

abbrev pub max_allowed_liquidation_staleness_seconds : ℕ
max_allowed_liquidation_staleness_seconds = 24 * 60 * 60

abbrev pub max_permissionless_liquidation_staleness_seconds : ℕ
max_permissionless_liquidation_staleness_seconds = default_max_liquidation_staleness_seconds

abbrev pub is_permissionless : LiquidationAccess → Bool
is_permissionless permissionless = true
is_permissionless liquidator_only = false

abbrev pub is_immediate : BadDebtLossAllocation → Bool
is_immediate immediate_liquidity_index_haircut = true
is_immediate deferred_to_deficit = false

unfoldable pub ensure_permissionless_config :
    LiquidationAccess → ℕ → BadDebtLossAllocation → ℕ → Result (Unit {0})
ensure_permissionless_config access staleness allocation deficit_underlying =
    if is_permissionless access
    then (do
      ensure (leb staleness max_permissionless_liquidation_staleness_seconds) illegal_argument
      ensure (is_immediate allocation) illegal_argument
      ensure (deficit_underlying == 0) illegal_argument)
    else ok tt
