-- ===== src/Pool.antt =====
-- The storage of the pool contract after its instantiation: contracts/pool_v2/src/storage.
pub mod Collateral
pub mod Invariant
use democratized_prime_smart.Map
use democratized_prime_smart.U128
use democratized_prime_smart.Contract.{ContractState}
use democratized_prime_smart.Host.{Ownership}
use democratized_prime_smart.Map.{Map}
use democratized_prime_smart.Prelude.{
  Bool, Result, [], get_or, if◌then◌else◌, illegal_state, ltb, ok, or_err, ownership, ℕ, ◌>>=◌,
  ◌>>◌,
}
use democratized_prime_smart.Reserve.{ReserveState}

pub record DirectedSaleOffer : Type 0 where
  pub amounts : Map ℕ
  pub expires_at : ℕ

pub record Pool : Type 0 where
  pub contract : ContractState
  pub reserve : ReserveState
  pub ownership : Ownership
  pub scaled_borrow : Map ℕ
  pub borrower_collateral : Map (Map ℕ)
  pub total_collateral_by_asset : Map ℕ
  pub borrower_require_commit : Map (Unit {0})
  pub lender_require_commit : Map (Unit {0})
  pub directed_sale_offer : Map DirectedSaleOffer
  pub directed_sale_version : Map ℕ

abbrev pub get_scaled_borrow : Pool → ℕ → ℕ
get_scaled_borrow pool owner = Map.get owner pool.scaled_borrow

abbrev pub set_scaled_borrow : Pool → ℕ → ℕ → Pool
set_scaled_borrow pool owner amount = record pool {
  scaled_borrow = Map.store owner amount pool.scaled_borrow;
}

abbrev pub set_reserve_state : Pool → ReserveState → Pool
set_reserve_state pool reserve = record pool { reserve = reserve }

-- a borrower with no entry has no collateral
abbrev pub get_borrower_collateral : Pool → ℕ → Map ℕ
get_borrower_collateral pool borrower = get_or [] (Map.lookup borrower pool.borrower_collateral)

abbrev pub set_borrower_collateral : Pool → ℕ → Map ℕ → Pool
set_borrower_collateral pool borrower amounts = record pool {
  borrower_collateral =
      (if Map.is_empty amounts
        then Map.remove borrower pool.borrower_collateral
        else Map.insert borrower amounts pool.borrower_collateral);
}

abbrev pub get_total_collateral_by_asset : Pool → ℕ → ℕ
get_total_collateral_by_asset pool asset_id = Map.get asset_id pool.total_collateral_by_asset

abbrev pub is_collateral_asset_in_use : Pool → ℕ → Bool
is_collateral_asset_in_use pool asset_id = ltb 0 (get_total_collateral_by_asset pool asset_id)

unfoldable pub add_total_collateral : Pool → ℕ → ℕ → Result Pool
add_total_collateral pool asset_id amount = do
  let cur = get_total_collateral_by_asset pool asset_id
  new_total ← or_err (U128.checked_add cur amount) illegal_state
  ok (record pool {
    total_collateral_by_asset = Map.store asset_id new_total pool.total_collateral_by_asset;
  })

unfoldable pub subtract_total_collateral : Pool → ℕ → ℕ → Result Pool
subtract_total_collateral pool asset_id amount = do
  let cur = get_total_collateral_by_asset pool asset_id
  new_total ← or_err (U128.checked_sub cur amount) illegal_state
  ok (record pool {
    total_collateral_by_asset = Map.store asset_id new_total pool.total_collateral_by_asset;
  })

abbrev pub get_borrower_require_commit : Pool → ℕ → Bool
get_borrower_require_commit pool borrower = Map.contains borrower pool.borrower_require_commit

abbrev pub get_lender_require_commit_on_exit : Pool → ℕ → Bool
get_lender_require_commit_on_exit pool lender = Map.contains lender pool.lender_require_commit

abbrev pub set_borrower_require_commit : Pool → ℕ → Bool → Pool
set_borrower_require_commit pool borrower require = record pool {
  borrower_require_commit =
      (if require
        then Map.insert borrower tt pool.borrower_require_commit
        else Map.remove borrower pool.borrower_require_commit);
}

abbrev pub set_lender_require_commit_on_exit : Pool → ℕ → Bool → Pool
set_lender_require_commit_on_exit pool lender require = record pool {
  lender_require_commit =
      (if require
        then Map.insert lender tt pool.lender_require_commit
        else Map.remove lender pool.lender_require_commit);
}

abbrev pub get_directed_sale_version : Pool → ℕ → ℕ
get_directed_sale_version pool borrower = Map.get borrower pool.directed_sale_version
