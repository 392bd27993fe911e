-- ===== src/Liquidation.antt =====
-- The liquidation of a borrower: contracts/pool_v2/src/execute/liquidate.rs, section by section as the
-- source numbers them.
pub mod Payment
pub mod Band
pub mod Gate
pub mod Taken
pub mod Tender
pub mod Outgoing
pub mod Seizure
pub mod Settling
pub mod Effects
use democratized_prime_smart.Access.{assert_liquidator}
use democratized_prime_smart.Collateral.{coins_of}
use democratized_prime_smart.Contract.{ContractState, is_permissionless}
use democratized_prime_smart.Cosmwasm.{Cosmwasm}
use democratized_prime_smart.Host.{Env, Host, MessageInfo}
use democratized_prime_smart.Liquidation.Payment.{find_position, refund, take_payment}
use democratized_prime_smart.Liquidation.Seizure.{
  bad_debt_underlying, check_seizure, debt_left, send_collateral, send_out, settle_reserve,
  shrink_offer, stored_collateral,
}
use democratized_prime_smart.Map.{Map}
use democratized_prime_smart.Pool.{
  Pool, set_borrower_collateral, set_reserve_state, set_scaled_borrow,
}
use democratized_prime_smart.Prelude.{Result, if◌then◌else◌, ok, or_err, std, ℕ, ◌++◌, ◌>>=◌, ◌>>◌}
use democratized_prime_smart.Responses.{Outcome, attach_rates, update_reserve_indexes}

-- by default only the liquidator
require_liquidator : ContractState → ℕ → Result (Unit {0})
require_liquidator contract sender =
    if is_permissionless contract.liquidation_access
    then ok tt
    else assert_liquidator contract sender

module _ ⦃c : Cosmwasm⦄ (host : Host) where
  unfoldable pub liquidate : Pool → Env → MessageInfo → ℕ → Map ℕ → Outcome
  unfolding require_liquidator
  liquidate pool env info borrower collateral_to_seize = do
    let contract = pool.contract
    require_liquidator contract info.sender
    borrower_addr ← or_err (host.addr_validate (host.trim borrower)) std
    (pool1, reserve) ← update_reserve_indexes pool env contract.rate_params
    position ← find_position host pool1 env reserve borrower_addr collateral_to_seize
    payment ← take_payment info contract reserve position
    seizure ← check_seizure host pool1 info reserve position payment collateral_to_seize
    loss ← bad_debt_underlying seizure.bad_debt payment.new_scaled_debt reserve.borrow_index
    reserve' ← settle_reserve contract reserve payment seizure.bad_debt loss
    let pool2 =
        set_reserve_state
          (set_scaled_borrow pool1 borrower_addr (debt_left payment seizure.bad_debt)) reserve'
    (pool3, outgoing) ← send_out pool2 collateral_to_seize seizure
    let pool4 = set_borrower_collateral pool3 borrower_addr (stored_collateral seizure)
    let pool5 = shrink_offer pool4 borrower_addr position collateral_to_seize
    attach_rates pool5
        (send_collateral info.sender (coins_of outgoing) ++ refund info.sender contract payment)
        reserve' contract.rate_params
