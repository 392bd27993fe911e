-- ===== src/Configuration.antt =====
-- The handlers of the pool's configuration in contracts/pool_v2/src/execute: update_rate_params.rs,
-- update_supported_collateral.rs, set_operational_state.rs, set_lender_required_attrs.rs,
-- set_borrower_required_attrs.rs, set_borrower_require_commit.rs, set_lender_require_commit.rs, and
-- `update_ownership` of packages/lib/src/common/ownership.rs.
pub mod Update
pub mod Effects
pub mod Soundness
use democratized_prime_smart.Access.{assert_custodian, assert_owner}
use democratized_prime_smart.Attributes.Patterns.{validate_required_attr_patterns}
use democratized_prime_smart.Collateral.{is_supported}
use democratized_prime_smart.Contract.{CollateralAsset, ContractState, OperationalState}
use democratized_prime_smart.Cosmwasm.{Cosmwasm, decimal_one}
use democratized_prime_smart.Host.{
  Env, Host, MessageInfo, OwnershipAction, no_funds, renounce_ownership,
}
use democratized_prime_smart.Lending.{is_some_true}
use democratized_prime_smart.Pool.{
  Pool, is_collateral_asset_in_use, set_borrower_require_commit, set_lender_require_commit_on_exit,
}
use democratized_prime_smart.Prelude.{
  Bool, List, Option, Result, [], ensure, false, if◌then◌else◌, illegal_argument, illegal_state,
  invalid_funds, leb, length, none, not, ok, or_err, ownership, some, std, true, ℕ, ◌++◌, ◌==◌,
  ◌>>=◌, ◌>>◌, ◌∷◌,
}
use democratized_prime_smart.PriceFeed.{mem}
use democratized_prime_smart.RateParams.{RateParams, validate}
use democratized_prime_smart.Responses.{Outcome, attach_rates, no_response, update_reserve_indexes}

abbrev set_contract_state : Pool → ContractState → Pool
set_contract_state pool contract = record pool { contract = contract }

-- `CollateralAssetV1::validate`
validate_haircut : Option ℕ → Result (Unit {0})
validate_haircut none = ok tt
validate_haircut (some h) = do
  ensure (not (h == 0)) illegal_argument
  ensure (leb h decimal_one) illegal_argument

unfoldable pub validate_asset : Host → CollateralAsset → Result (Unit {0})
unfolding validate_haircut
validate_asset host asset = do
  ensure (not (host.is_blank asset.asset_id)) illegal_argument
  validate_haircut asset.haircut

-- no id stands twice, and none was seen before
no_duplicates : List ℕ → List ℕ → Result (Unit {0})
no_duplicates seen [] = ok tt
no_duplicates seen (id ∷ ids) = do
  ensure (not (mem id seen)) illegal_argument
  no_duplicates (id ∷ seen) ids

-- the first entry of the asset is replaced, or the asset added
unfoldable pub upsert : CollateralAsset → List CollateralAsset → List CollateralAsset
upsert asset [] = asset ∷ []
upsert asset (e ∷ assets) =
    let rest = upsert asset assets in
    if e.asset_id == asset.asset_id then asset ∷ assets else e ∷ rest

update_assets :
    Host → ℕ → List CollateralAsset → List CollateralAsset → Result (List CollateralAsset)
unfolding validate_asset
update_assets host lending_denom assets [] = ok assets
update_assets host lending_denom assets (asset ∷ to_update) = do
  validate_asset host asset
  ensure (not (asset.asset_id == lending_denom)) illegal_argument
  update_assets host lending_denom (upsert asset assets) to_update

-- `to_remove_filtered`: the ids that are supported
supported_of : List CollateralAsset → List ℕ → List ℕ
unfolding is_supported
supported_of assets [] = []
supported_of assets (id ∷ ids) =
    let rest = supported_of assets ids in if is_supported assets id then id ∷ rest else rest

none_in_use : Pool → List ℕ → Result (Unit {0})
none_in_use pool [] = ok tt
none_in_use pool (id ∷ ids) = do
  ensure (not (is_collateral_asset_in_use pool id)) illegal_state
  none_in_use pool ids

-- `retain`
without : List ℕ → List CollateralAsset → List CollateralAsset
without ids [] = []
without ids (e ∷ assets) =
    let rest = without ids assets in if mem e.asset_id ids then rest else e ∷ rest

asset_ids : List CollateralAsset → List ℕ
asset_ids [] = []
asset_ids (a ∷ assets) = a.asset_id ∷ asset_ids assets

unfoldable pub update_supported_collateral :
    Host → Pool → MessageInfo → List CollateralAsset → List ℕ → Outcome
unfolding no_duplicates update_assets supported_of none_in_use without asset_ids
update_supported_collateral host pool info to_update to_remove = do
  let contract = pool.contract
  assert_custodian contract info.sender
  ensure (no_funds info) invalid_funds
  no_duplicates [] (asset_ids to_update ++ to_remove)
  assets ←
      update_assets host contract.lending_denom.name contract.supported_collateral_assets to_update
  let removed = supported_of assets to_remove
  none_in_use pool removed
  ok (
    set_contract_state pool
        (record contract { supported_collateral_assets = without removed assets }),
    no_response,
  )

module _ ⦃c : Cosmwasm⦄ where
  unfoldable pub update_rate_params : Pool → Env → MessageInfo → RateParams → Outcome
  update_rate_params pool env info rate_params = do
    let contract = pool.contract
    assert_custodian contract info.sender
    ensure (no_funds info) invalid_funds
    validate rate_params
    (pool1, reserve) ← update_reserve_indexes pool env contract.rate_params
    attach_rates (set_contract_state pool1 (record contract { rate_params = rate_params })) []
        reserve rate_params

-- `assert_owner_or_custodian`
unfoldable pub assert_owner_or_custodian : Host → Pool → ℕ → Result (Unit {0})
assert_owner_or_custodian host pool sender = do
  owns ← or_err (host.is_owner pool.ownership sender) ownership
  if owns then ok tt else assert_custodian pool.contract sender

unfoldable pub set_operational_state : Host → Pool → MessageInfo → OperationalState → Outcome
set_operational_state host pool info state = do
  assert_owner_or_custodian host pool info.sender
  ensure (no_funds info) invalid_funds
  ok (set_contract_state pool (record pool.contract { operational_state = state }), no_response)

-- `len() <= MAX_LENDER_BORROWER_REQUIRED_ATTRS`
abbrev pub max_lender_borrower_required_attrs : ℕ
max_lender_borrower_required_attrs = 10

unfoldable pub set_lender_required_attrs : Pool → MessageInfo → List (List ℕ) → Outcome
set_lender_required_attrs pool info attrs = do
  assert_custodian pool.contract info.sender
  ensure (no_funds info) invalid_funds
  ensure (leb (length attrs) max_lender_borrower_required_attrs) illegal_argument
  validate_required_attr_patterns attrs
  ok (set_contract_state pool (record pool.contract { lender_required_attrs = attrs }), no_response)

unfoldable pub set_borrower_required_attrs : Pool → MessageInfo → List (List ℕ) → Outcome
set_borrower_required_attrs pool info attrs = do
  assert_custodian pool.contract info.sender
  ensure (no_funds info) invalid_funds
  ensure (leb (length attrs) max_lender_borrower_required_attrs) illegal_argument
  validate_required_attr_patterns attrs
  ok (
    set_contract_state pool (record pool.contract { borrower_required_attrs = attrs }),
    no_response,
  )

-- a commit can be asked for only where there is a market; `None` removes the rule
require_market : Option ℕ → Option Bool → Result (Unit {0})
require_market commit_market_id (some true) = do _ ← or_err commit_market_id illegal_argument; ok tt
require_market commit_market_id _ = ok tt

unfoldable pub execute_set_borrower_require_commit :
    Host → Pool → MessageInfo → ℕ → Option Bool → Outcome
unfolding require_market
execute_set_borrower_require_commit host pool info address require = do
  assert_owner host pool info.sender
  ensure (no_funds info) invalid_funds
  borrower ← or_err (host.addr_validate (host.trim address)) std
  require_market pool.contract.commit_market_id require
  ok (set_borrower_require_commit pool borrower (is_some_true require), no_response)

unfoldable pub execute_set_lender_require_commit_on_exit :
    Host → Pool → MessageInfo → ℕ → Option Bool → Outcome
unfolding require_market
execute_set_lender_require_commit_on_exit host pool info address require = do
  assert_owner host pool info.sender
  ensure (no_funds info) invalid_funds
  lender ← or_err (host.addr_validate (host.trim address)) std
  require_market pool.contract.commit_market_id require
  ok (set_lender_require_commit_on_exit pool lender (is_some_true require), no_response)

-- ownership cannot be renounced
unfoldable pub is_renounce : OwnershipAction → Bool
is_renounce renounce_ownership = true
is_renounce _ = false

unfoldable pub execute_update_ownership :
    Host → Pool → Env → MessageInfo → OwnershipAction → Outcome
unfolding is_renounce
execute_update_ownership host pool env info action = do
  ensure (no_funds info) invalid_funds
  ensure (not (is_renounce action)) illegal_argument
  ownership' ← or_err (host.update_ownership pool.ownership env info.sender action) ownership
  ok (record pool { ownership = ownership' }, no_response)
