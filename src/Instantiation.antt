-- ===== src/Instantiation.antt =====
-- The start of the pool: contracts/pool_v2/src/instantiate/instantiate_contract.rs and reply.rs,
-- msg/instantiate.rs, and `validate_repo_token_meta` of packages/lib/src/repo_token.rs. A name and a symbol
-- are the bytes of the trimmed text.
pub mod Start
use democratized_prime_smart.Attributes.Patterns.{validate_required_attr_patterns}
use democratized_prime_smart.Configuration.{max_lender_borrower_required_attrs, validate_asset}
use democratized_prime_smart.Contract.{
  BadDebtLossAllocation, CollateralAsset, ContractState, Denom, LiquidationAccess, active,
  ensure_permissionless_config, max_allowed_liquidation_staleness_seconds,
}
use democratized_prime_smart.Cosmwasm.{Cosmwasm, decimal_one}
use democratized_prime_smart.Host.{Env, Host, MessageInfo}
use democratized_prime_smart.Pool.{Pool}
use democratized_prime_smart.Prelude.{
  Bool, List, Option, Result, [], ensure, false, illegal_argument, illegal_state, leb, length, ltb,
  none, not, ok, or_err, ownership, some, std, true, ℕ, ◌&&◌, ◌==◌, ◌>>=◌, ◌>>◌, ◌||◌, ◌∷◌,
}
use democratized_prime_smart.PriceFeed.{mem}
use democratized_prime_smart.RateParams.{RateParams, validate}
use democratized_prime_smart.Reserve.{ReserveState}
use democratized_prime_smart.Treasury.{accrued_reserve}

pub data RepoTokenConfig : Type 0 where
  existing : ℕ → RepoTokenConfig
  new : ℕ → List ℕ → List ℕ → ℕ → RepoTokenConfig

pub record InstantiateMsg : Type 0 where
  pub contract_name : ℕ
  pub repo_token : RepoTokenConfig
  pub lending_denom : Denom
  pub rate_params : RateParams
  pub lender_required_attrs : List (List ℕ)
  pub borrower_required_attrs : List (List ℕ)
  pub price_oracle_address : ℕ
  pub max_borrower_collateral_types : ℕ
  pub margin_rate : ℕ
  pub liquidation_rate : ℕ
  pub liquidation_bonus_rate : ℕ
  pub min_lend : ℕ
  pub min_borrow : ℕ
  pub supported_collateral_assets : List CollateralAsset
  pub commit_market_id : Option ℕ
  pub bad_debt_loss_allocation : BadDebtLossAllocation
  pub custodian : ℕ
  pub liquidator : ℕ
  pub max_liquidation_staleness_seconds : ℕ
  pub liquidation_access : LiquidationAccess

-- the message that creates the repo token
pub record RepoInstantiate : Type 0 where
  pub code_id : ℕ
  pub name : List ℕ
  pub symbol : List ℕ
  pub decimals : ℕ
  pub owner : ℕ
  pub minter : ℕ
  pub pool_address : ℕ

-- `Denom::validate`
unfoldable pub validate_denom : Host → Denom → Result (Unit {0})
validate_denom host denom = do
  ensure (not (host.is_blank denom.name)) illegal_argument
  ensure (leb denom.precision 38) illegal_argument

-- a letter of ASCII, or `-`
abbrev is_symbol_byte : ℕ → Bool
is_symbol_byte b = b == b'-' || (leb b'A' b && leb b b'Z') || (leb b'a' b && leb b b'z')

all_symbol_bytes : List ℕ → Bool
all_symbol_bytes [] = true
all_symbol_bytes (b ∷ bs) = is_symbol_byte b && all_symbol_bytes bs

unfoldable pub validate_repo_token_meta : List ℕ → List ℕ → ℕ → Result (Unit {0})
unfolding all_symbol_bytes
validate_repo_token_meta name symbol decimals = do
  ensure (leb 3 (length name) && leb (length name) 50) illegal_argument
  ensure (not (ltb (length symbol) 3 || ltb 12 (length symbol))) illegal_argument
  ensure (all_symbol_bytes symbol) illegal_argument
  ensure (leb decimals 18) illegal_argument

-- the assets: valid, not the lending denom, and each once
unfoldable pub check_assets : Host → ℕ → List ℕ → List CollateralAsset → Result (Unit {0})
check_assets host lending_denom seen [] = ok tt
check_assets host lending_denom seen (asset ∷ assets) = do
  validate_asset host asset
  ensure (not (asset.asset_id == lending_denom)) illegal_argument
  ensure (not (mem asset.asset_id seen)) illegal_argument
  check_assets host lending_denom (asset.asset_id ∷ seen) assets

-- the address of the repo token, or the message that creates it
unfoldable pub repo_token_of :
    Host → Env → ℕ → RepoTokenConfig → Result (Option ℕ × Option RepoInstantiate)
repo_token_of host env sender (existing address) = do
  ensure (not (host.is_blank address)) illegal_argument
  addr ← or_err (host.addr_validate (host.trim address)) std
  ok (some addr, none)
repo_token_of host env sender (new code_id name symbol decimals) = do
  ensure (ltb 0 code_id) illegal_argument
  validate_repo_token_meta name symbol decimals
  ok (
    none,
    some (record {
      code_id = code_id;
      name = name;
      symbol = symbol;
      decimals = decimals;
      owner = sender;
      minter = env.contract_address;
      pool_address = env.contract_address;
    }),
  )

-- the reserve before anything is lent
abbrev pub initial_reserve : ℕ → ReserveState
initial_reserve now = record {
  liquidity_index = decimal_one;
  borrow_index = decimal_one;
  last_updated_at = now;
  total_scaled_liquidity = 0;
  total_scaled_borrow = 0;
  accrued_reserve = 0;
  deficit_underlying = 0;
}

-- the configuration of a message, with the addresses that were validated
abbrev pub initial_contract : InstantiateMsg → Option ℕ → ℕ → ℕ → ℕ → ContractState
initial_contract msg repo_token oracle custodian liquidator = record {
  repo_token_cw20_address = repo_token;
  lending_denom = msg.lending_denom;
  rate_params = msg.rate_params;
  lender_required_attrs = msg.lender_required_attrs;
  borrower_required_attrs = msg.borrower_required_attrs;
  price_oracle_address = oracle;
  max_borrower_collateral_types = msg.max_borrower_collateral_types;
  margin_rate = msg.margin_rate;
  liquidation_rate = msg.liquidation_rate;
  liquidation_bonus_rate = msg.liquidation_bonus_rate;
  min_lend = msg.min_lend;
  min_borrow = msg.min_borrow;
  supported_collateral_assets = msg.supported_collateral_assets;
  operational_state = active;
  commit_market_id = msg.commit_market_id;
  bad_debt_loss_allocation = msg.bad_debt_loss_allocation;
  custodian = some custodian;
  liquidator = some liquidator;
  max_liquidation_staleness_seconds = msg.max_liquidation_staleness_seconds;
  liquidation_access = msg.liquidation_access;
}

-- the storage with nothing in its maps; the sender is the owner
abbrev pub initial_pool : ContractState → ℕ → ℕ → Pool
initial_pool contract now sender = record {
  contract = contract;
  reserve = initial_reserve now;
  ownership = record { owner = some sender; pending_owner = none };
  scaled_borrow = [];
  borrower_collateral = [];
  total_collateral_by_asset = [];
  borrower_require_commit = [];
  lender_require_commit = [];
  directed_sale_offer = [];
  directed_sale_version = [];
}

module _ ⦃c : Cosmwasm⦄ where
  open c use {checked_mul}

  -- the checks of the rates and limits
  unfoldable pub check_rates : InstantiateMsg → Result (Unit {0})
  check_rates msg = do
    ensure (not (msg.min_lend == 0)) illegal_argument
    ensure (not (msg.min_borrow == 0)) illegal_argument
    ensure (not (msg.margin_rate == 0)) illegal_argument
    ensure (not (msg.liquidation_rate == 0)) illegal_argument
    ensure (leb msg.liquidation_rate decimal_one) illegal_argument
    ensure (ltb msg.margin_rate msg.liquidation_rate) illegal_argument
    ensure (ltb decimal_one msg.liquidation_bonus_rate) illegal_argument
    bonus_times_margin ←
        or_err (checked_mul msg.liquidation_bonus_rate msg.margin_rate) illegal_argument
    ensure (ltb bonus_times_margin decimal_one) illegal_argument
    ensure (ltb 0 msg.max_borrower_collateral_types) illegal_argument
    ensure (leb msg.max_liquidation_staleness_seconds max_allowed_liquidation_staleness_seconds)
        illegal_argument
    ensure_permissionless_config msg.liquidation_access msg.max_liquidation_staleness_seconds
        msg.bad_debt_loss_allocation 0

  unfoldable pub instantiate_contract :
      Host → Env → MessageInfo → InstantiateMsg → Result (Pool × Option RepoInstantiate)
  instantiate_contract host env info msg = do
    validate_denom host msg.lending_denom
    validate msg.rate_params
    check_assets host msg.lending_denom.name [] msg.supported_collateral_assets
    (repo_token, submessage) ← repo_token_of host env info.sender msg.repo_token
    ensure (not (host.is_blank msg.contract_name)) illegal_argument
    ensure (not (host.is_blank msg.price_oracle_address)) illegal_argument
    oracle ← or_err (host.addr_validate (host.trim msg.price_oracle_address)) std
    check_rates msg
    ensure (leb (length msg.lender_required_attrs) max_lender_borrower_required_attrs)
        illegal_argument
    ensure (leb (length msg.borrower_required_attrs) max_lender_borrower_required_attrs)
        illegal_argument
    validate_required_attr_patterns msg.lender_required_attrs
    validate_required_attr_patterns msg.borrower_required_attrs
    custodian ← or_err (host.addr_validate (host.trim msg.custodian)) std
    liquidator ← or_err (host.addr_validate (host.trim msg.liquidator)) std
    ok (
      initial_pool (initial_contract msg repo_token oracle custodian liquidator) env.block_time
          info.sender,
      submessage,
    )

abbrev is_none : Option ℕ → Bool
is_none none = true
is_none (some _) = false

-- `reply`, with the id and the address that the result of the submessage was parsed to
unfoldable pub reply : Host → Pool → ℕ → Option ℕ → Result Pool
reply host pool id parsed = do
  ensure (id == 1) illegal_state
  addr_str ← or_err parsed illegal_state
  addr ← or_err (host.addr_validate (host.trim addr_str)) std
  ensure (is_none pool.contract.repo_token_cw20_address) illegal_state
  ok (record pool { contract = record pool.contract { repo_token_cw20_address = some addr } })
