-- ===== src/Configuration/Update.antt =====
-- The update of the pool's configuration:
-- contracts/pool_v2/src/execute/update_contract_config.rs.
use democratized_prime_smart.Access.{assert_custodian}
use democratized_prime_smart.Contract.{
  BadDebtLossAllocation, ContractState, LiquidationAccess, ensure_permissionless_config,
  is_immediate, max_allowed_liquidation_staleness_seconds,
}
use democratized_prime_smart.Cosmwasm.{Cosmwasm, decimal_one}
use democratized_prime_smart.Host.{Host, MessageInfo, no_funds}
use democratized_prime_smart.Pool.{Pool}
use democratized_prime_smart.Prelude.{
  Bool, Option, Result, ensure, false, get_or, if◌then◌else◌, illegal_argument, invalid_funds, leb,
  ltb, none, not, ok, or_err, some, std, true, ℕ, ◌==◌, ◌>>=◌, ◌>>◌, ◌||◌,
}
use democratized_prime_smart.Responses.{Outcome, no_response}

pub record UpdateContractConfigParams : Type 0 where
  pub margin_rate : Option ℕ
  pub liquidation_rate : Option ℕ
  pub liquidation_bonus_rate : Option ℕ
  pub price_oracle_address : Option ℕ
  pub min_lend : Option ℕ
  pub min_borrow : Option ℕ
  pub max_borrower_collateral_types : Option ℕ
  pub commit_market_id : Option ℕ
  pub bad_debt_loss_allocation : Option BadDebtLossAllocation
  pub custodian : Option ℕ
  pub liquidator : Option ℕ
  pub max_liquidation_staleness_seconds : Option ℕ
  pub liquidation_access : Option LiquidationAccess

abbrev is_some {ℓ} : {A : Type ℓ} → Option A → Bool
is_some none = false
is_some (some _) = true

pub has_any : UpdateContractConfigParams → Bool
has_any p =
    is_some p.margin_rate
    || is_some p.liquidation_rate
    || is_some p.liquidation_bonus_rate
    || is_some p.price_oracle_address
    || is_some p.min_lend
    || is_some p.min_borrow
    || is_some p.max_borrower_collateral_types
    || is_some p.commit_market_id
    || is_some p.bad_debt_loss_allocation
    || is_some p.custodian
    || is_some p.liquidator
    || is_some p.max_liquidation_staleness_seconds
    || is_some p.liquidation_access

-- the liquidation rate may only be raised
unfoldable pub raised : ℕ → Option ℕ → Result ℕ
raised current none = ok current
raised current (some v) = do ensure (leb current v) illegal_argument; ok v

-- an amount that must not be zero
unfoldable pub nonzero_or : ℕ → Option ℕ → Result ℕ
nonzero_or current none = ok current
nonzero_or current (some v) = do ensure (not (v == 0)) illegal_argument; ok v

abbrev pub same_allocation : BadDebtLossAllocation → BadDebtLossAllocation → Bool
same_allocation a b = if is_immediate a then is_immediate b else not (is_immediate b)

-- the allocation changes only without a deficit
unfoldable pub allocation_of :
    BadDebtLossAllocation → ℕ → Option BadDebtLossAllocation → Result BadDebtLossAllocation
allocation_of current deficit none = ok current
allocation_of current deficit (some v) = do
  ensure (same_allocation v current || deficit == 0) illegal_argument
  ok v

-- an account that is replaced by a valid address
pub account_of : Host → Option ℕ → Option ℕ → Result (Option ℕ)
account_of host current none = ok current
account_of host current (some address) = do
  a ← or_err (host.addr_validate (host.trim address)) std
  ok (some a)

pub oracle_of : Host → ℕ → Option ℕ → Result ℕ
oracle_of host current none = ok current
oracle_of host current (some address) = do
  ensure (not (host.is_blank address)) illegal_argument
  or_err (host.addr_validate (host.trim address)) std

abbrev market_of : Option ℕ → Option ℕ → Option ℕ
market_of current none = current
market_of current (some market) = some market

-- the configuration with what the message sets
unfoldable pub updated :
    Host → ContractState → ℕ → UpdateContractConfigParams → Result ContractState
unfolding account_of oracle_of
updated host contract deficit params = do
  rate ← raised contract.liquidation_rate params.liquidation_rate
  oracle ← oracle_of host contract.price_oracle_address params.price_oracle_address
  least_lend ← nonzero_or contract.min_lend params.min_lend
  least_borrow ← nonzero_or contract.min_borrow params.min_borrow
  types ← nonzero_or contract.max_borrower_collateral_types params.max_borrower_collateral_types
  allocation ←
      allocation_of contract.bad_debt_loss_allocation deficit params.bad_debt_loss_allocation
  keeper ← account_of host contract.custodian params.custodian
  seller ← account_of host contract.liquidator params.liquidator
  ok (record contract {
    margin_rate = get_or contract.margin_rate params.margin_rate;
    liquidation_rate = rate;
    liquidation_bonus_rate = get_or contract.liquidation_bonus_rate params.liquidation_bonus_rate;
    price_oracle_address = oracle;
    min_lend = least_lend;
    min_borrow = least_borrow;
    max_borrower_collateral_types = types;
    commit_market_id = market_of contract.commit_market_id params.commit_market_id;
    bad_debt_loss_allocation = allocation;
    custodian = keeper;
    liquidator = seller;
    max_liquidation_staleness_seconds =
        get_or contract.max_liquidation_staleness_seconds params.max_liquidation_staleness_seconds;
    liquidation_access = get_or contract.liquidation_access params.liquidation_access;
  })

module _ ⦃c : Cosmwasm⦄ where
  open c use {checked_mul}

  -- the checks of the new configuration
  unfoldable pub check_config : ContractState → ℕ → Result (Unit {0})
  check_config contract deficit_underlying = do
    ensure (not (contract.margin_rate == 0)) illegal_argument
    ensure (not (contract.liquidation_rate == 0)) illegal_argument
    ensure (leb contract.liquidation_rate decimal_one) illegal_argument
    ensure (ltb contract.margin_rate contract.liquidation_rate) illegal_argument
    ensure (ltb decimal_one contract.liquidation_bonus_rate) illegal_argument
    bonus_times_margin ←
        or_err (checked_mul contract.liquidation_bonus_rate contract.margin_rate) illegal_argument
    ensure (ltb bonus_times_margin decimal_one) illegal_argument
    ensure
        (leb contract.max_liquidation_staleness_seconds max_allowed_liquidation_staleness_seconds)
        illegal_argument
    ensure_permissionless_config contract.liquidation_access
        contract.max_liquidation_staleness_seconds contract.bad_debt_loss_allocation
        deficit_underlying

  unfoldable pub update_contract_config :
      Host → Pool → MessageInfo → UpdateContractConfigParams → Outcome
  unfolding has_any
  update_contract_config host pool info params = do
    assert_custodian pool.contract info.sender
    ensure (no_funds info) invalid_funds
    ensure (has_any params) illegal_argument
    contract ← updated host pool.contract pool.reserve.deficit_underlying params
    check_config contract pool.reserve.deficit_underlying
    ok (record pool { contract = contract }, no_response)
