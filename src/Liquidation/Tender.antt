-- ===== src/Liquidation/Tender.antt =====
-- What a liquidation is paid with, and the messages it sends: contracts/pool_v2/src/execute/liquidate.rs.
use democratized_prime_smart.Accrual.{compute_effective_reserve}
use democratized_prime_smart.Contract.{ContractState}
use democratized_prime_smart.Cosmwasm.{Cosmwasm}
use democratized_prime_smart.Host.{Coin, Env, MessageInfo, Msg, bank_send}
use democratized_prime_smart.Lending.{lending_coins}
use democratized_prime_smart.Liquidation.Seizure.{send_collateral}
use democratized_prime_smart.Pool.{Pool, get_scaled_borrow}
use democratized_prime_smart.Prelude.{
  List, [], arith, if◌then◌else◌, ltb, min, ok, refl, ℕ, ◌-◌, ◌∷◌, ◌≡◌,
}
use democratized_prime_smart.Reserve.{ReserveState}
use democratized_prime_smart.Scaling.{scaled_to_underlying_borrow_ceil}

-- What the sender of a liquidation pays with: one coin of the lending denom, against the payoff of the
-- borrower's debt at the accrued index.
pub record Tender ⦃c : Cosmwasm⦄ (pool : Pool) (env : Env) (info : MessageInfo) (borrower : ℕ)
    : Type 0 where
  pub accrued : ReserveState
  pub accrues :
      compute_effective_reserve pool.reserve env.block_time pool.contract.rate_params ≡ ok accrued
  pub sent : ℕ
  pub funds : info.funds ≡ lending_coins pool.contract sent
  pub payoff : ℕ
  pub payoff_eq :
      scaled_to_underlying_borrow_ceil (get_scaled_borrow pool borrower) accrued.borrow_index
      ≡ ok payoff

-- one message with the coins, if there are any
abbrev pub pays : ℕ → List Coin → List Msg
pays account [] = []
pays account (coin ∷ coins) = bank_send account (coin ∷ coins) ∷ []

-- one message with what was sent beyond the payoff, if there is an excess
abbrev pub excess : ContractState → ℕ → ℕ → ℕ → List Msg
excess contract account sent payoff =
    if ltb payoff sent then bank_send account (lending_coins contract (sent - payoff)) ∷ [] else []

pub send_collateral_eq :
    (account : ℕ) (coins : List Coin) → send_collateral account coins ≡ pays account coins
send_collateral_eq account [] = refl
send_collateral_eq account (coin ∷ coins) = refl

pub excess_of_min :
    (contract : ContractState) (account sent payoff : ℕ)
    → (if ltb (min sent payoff) sent
        then bank_send account (lending_coins contract (sent - min sent payoff)) ∷ []
        else [])
      ≡ excess contract account sent payoff
excess_of_min contract account sent payoff = ground arith
